-- ===== src/Transport/Fabric.antt =====
-- `FabricTransport` of src/transport.rs, which drives the transfer engine of fabric_lib. The engine
-- is a parameter; so are the topology and the files of the machine.
pub mod CpuList
pub mod Engine
use kv_rdma_poc.Shared.{
  then_with, ℕ, zero, suc, ◌+◌, Bool, true, false, List, [], ◌∷◌, Option, none, some, map, min, ltb,
  ◌==◌, if◌then◌else◌, length, take, Outcome, ok, err, panic, Exec, pure, fail, map_err, ◌>>=◌,
  ◌>>◌,
}
use kv_rdma_poc.Message.{
  Message, no_domains, few_cpus, few_numa_cpus, build_failed, host_only_failed, invalid_pointer,
  register_failed, submit_failed, read_failed,
}
use kv_rdma_poc.Protocol.{
  DomainAddress, MemoryRegionRemoteKey, MemoryRegionDescriptor, MemoryRegionHandle, new_descriptor,
}
use kv_rdma_poc.Memory.Bytes.{Memory}
use kv_rdma_poc.Transport.{
  TransportConfig, DomainRouting, round_robin_sharded, pinned, TransferRequest, TransferResult,
  RdmaTransportTrait,
}
use CpuList.{parse_cpulist, numa_path}

-- The types of fabric_lib that the code builds or takes apart.
pub record FabricDescriptor : Type 0 where
  pub ptr : ℕ
  pub addr_rkey_list : List (List ℕ × ℕ)

pub data DomainGroupRouting : Type 0 where
  round_robin_shards pinned_domain : ℕ → DomainGroupRouting

pub record SingleTransferRequest : Type 0 where
  pub src_mr : ℕ
  pub src_offset : ℕ
  pub length : ℕ
  pub imm_data : Option ℕ
  pub dst_mr : FabricDescriptor
  pub dst_offset : ℕ
  pub domain : DomainGroupRouting

pub record TopologyGroup (Domain : Type 0) : Type 0 where
  pub cuda_device : ℕ
  pub numa : ℕ
  pub domains : List Domain
  pub cpus : List ℕ

-- fabric_lib, and the file system that the code reads. An error is a text.
pub record FabricLib : Type 1 where
  pub Domain : Type 0
  pub Engine : Type 0
  pub detect_topology : Outcome Message (List (TopologyGroup Domain))
  pub build : (cuda_device : ℕ) → List Domain → (worker_cpu uvm_cpu : ℕ) → Outcome Message Engine
  pub new_host_only : (num_domains worker_cpu uvm_cpu : ℕ) → Outcome Message Engine
  pub main_address : Engine → List ℕ
  pub register_memory_allow_remote : Engine → ℕ → ℕ → Outcome Message (ℕ × FabricDescriptor)
  pub submit_transfer : Engine → SingleTransferRequest → Exec Memory Message (Unit {0})
  pub submit_transfer_async : Engine → SingleTransferRequest → Exec Memory Message (Unit {0})
  pub read_to_string : List ℕ → Outcome Message (List ℕ)

pub record FabricTransport (F : FabricLib) : Type 0 where
  pub config : TransportConfig
  pub engine : F.Engine
  pub domain_addresses : List DomainAddress

unfoldable pub convert_mr_descriptor : MemoryRegionDescriptor → FabricDescriptor
convert_mr_descriptor desc = record {
  ptr = desc.ptr;
  addr_rkey_list =
      map (λ (item : DomainAddress × MemoryRegionRemoteKey). (item.0.bytes, item.1.key))
        desc.addr_rkey_list;
}

-- `expect` panics on the null pointer.
unfoldable pub convert_mr_handle : {E : Type 0} → MemoryRegionHandle → Outcome E ℕ
convert_mr_handle handle = if handle.ptr == 0 then panic else ok handle.ptr

-- No shards become one shard.
unfoldable pub convert_routing : DomainRouting → DomainGroupRouting
convert_routing (round_robin_sharded num_shards) =
    round_robin_shards (if num_shards == 0 then 1 else num_shards)
convert_routing (pinned domain_idx) = pinned_domain domain_idx

-- A result of the library, with its error put into a message of the code.
abbrev pub lift_err : {E F A : Type 0} → (E → F) → Outcome E A → Outcome F A
lift_err f (ok a) = ok a
lift_err f (err e) = err (f e)
lift_err f panic = panic

-- The first two of the CPUs, for the two threads of the engine.
abbrev pub with_two :
    {A : Type 0} → List ℕ → Outcome Message A → (ℕ → ℕ → Outcome Message A) → Outcome Message A
with_two (worker ∷ uvm ∷ rest) few k = k worker uvm
with_two (worker ∷ []) few k = few
with_two [] few k = few

module _ (F : FabricLib) where
  unfoldable pub build_with_topology : ℕ → TopologyGroup F.Domain → Outcome Message F.Engine
  build_with_topology num_domains topo_group =
      build (take (min num_domains (length topo_group.domains)) topo_group.domains)
    where
      build : List F.Domain → Outcome Message F.Engine
      build [] = err no_domains
      build (d ∷ domains) = with_two topo_group.cpus (err few_cpus) (λ worker uvm.
          lift_err build_failed (F.build topo_group.cuda_device (d ∷ domains) worker uvm))

  unfoldable pub get_numa_cpus : ℕ → Outcome Message (List ℕ)
  unfolding numa_path parse_cpulist
  get_numa_cpus numa_node =
      then_with
        (lift_err (read_failed (numa_path numa_node)) (F.read_to_string (numa_path numa_node)))
        parse_cpulist

  unfoldable pub build_host_only : ℕ → Outcome Message F.Engine
  unfolding get_numa_cpus
  build_host_only num_domains = then_with (get_numa_cpus 0) (λ cpus.
      with_two cpus (err (few_numa_cpus (length cpus)))
        (λ worker uvm. lift_err host_only_failed (F.new_host_only num_domains worker uvm)))

  -- A failed detection counts as no topology.
  unfoldable pub build_engine : ℕ → Outcome Message F.Engine
  unfolding build_with_topology build_host_only
  build_engine num_domains = elim F.detect_topology [
    | ok topology ↦ elim topology [
      | [] ↦ build_host_only num_domains
      | topo_group ∷ _ ↦ build_with_topology num_domains topo_group
    ]
    | err _ ↦ build_host_only num_domains
    | panic ↦ panic
  ]

  unfoldable pub new : TransportConfig → Outcome Message (FabricTransport F)
  unfolding build_engine
  new config = then_with (build_engine config.num_domains) (λ engine. ok (record {
    config = config;
    engine = engine;
    domain_addresses = record { bytes = F.main_address engine } ∷ [];
  }))

  unfoldable pub register_memory :
      FabricTransport F → ℕ → ℕ → Outcome Message (MemoryRegionHandle × MemoryRegionDescriptor)
  unfolding new_descriptor
  register_memory t ptr len =
      if ptr == 0
      then err invalid_pointer
      else then_with (lift_err register_failed (F.register_memory_allow_remote t.engine ptr len))
          (λ r. ok (
            record { ptr = r.0; len = len },
            new_descriptor r.1.ptr (
                map (λ (item : List ℕ × ℕ). (record { bytes = item.0 }, record { key = item.1 }))
                  r.1.addr_rkey_list),
          ))

  abbrev pub fabric_request : TransferRequest → ℕ → SingleTransferRequest
  fabric_request request src_mr = record {
    src_mr = src_mr;
    src_offset = request.src_offset;
    length = request.length;
    imm_data = request.imm_data;
    dst_mr = convert_mr_descriptor request.dst_descriptor;
    dst_offset = request.dst_offset;
    domain = convert_routing request.routing;
  }

  abbrev convert_src : TransferRequest → Exec Memory Message ℕ
  convert_src request m = (convert_mr_handle request.src_handle, m)

  unfoldable pub submit_transfer :
      FabricTransport F → TransferRequest → Exec Memory Message (Unit {0})
  unfolding convert_mr_descriptor convert_mr_handle convert_routing
  submit_transfer t request = do
    src_mr ← convert_src request
    (λ m. map_err submit_failed (F.submit_transfer t.engine (fabric_request request src_mr) m))

  -- An error of the engine is a result without success, not an error.
  abbrev as_result :
      ℕ → Outcome Message (Unit {0}) × Memory → Outcome Message TransferResult × Memory
  as_result length (ok _, m) =
      (ok (record { success = true; bytes_transferred = length; error = none }), m)
  as_result length (err e, m) =
      (ok (record { success = false; bytes_transferred = 0; error = some e }), m)
  as_result length (panic, m) = (panic, m)

  unfoldable pub submit_transfer_async :
      FabricTransport F → TransferRequest → Exec Memory Message TransferResult
  unfolding convert_mr_descriptor convert_mr_handle convert_routing
  submit_transfer_async t request = do
    src_mr ← convert_src request
    (λ m.
        as_result request.length
          (F.submit_transfer_async t.engine (fabric_request request src_mr) m))

  unfoldable pub fabric_trait : FabricTransport F → RdmaTransportTrait
  unfolding register_memory submit_transfer submit_transfer_async
  fabric_trait t = record {
    domain_addresses = t.domain_addresses;
    register_memory = register_memory t;
    submit_transfer = submit_transfer t;
    submit_transfer_async = submit_transfer_async t;
    poll_completion = none;
  }

  -- What `RdmaTransport::new` calls in a build with the feature `rdma`.
  unfoldable pub fabric_new : TransportConfig → Outcome Message RdmaTransportTrait
  unfolding new fabric_trait
  fabric_new config = then_with (new config) (λ t. ok (fabric_trait t))
