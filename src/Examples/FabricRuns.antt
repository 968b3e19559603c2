-- ===== src/Examples/FabricRuns.antt =====
-- The theorems on the fabric transport at concrete inputs, with an engine that goes by its keys.
use kv_rdma_poc.Shared.{ℕ, List, Exec, err, ◌+◌, ◌-◌, ◌++◌, ◌≡◌, [], ◌∷◌, none, ok, arith}
use kv_rdma_poc.Memory.Bytes.{Memory, copy}
use kv_rdma_poc.Message.{Message, invalid_pointer}
use kv_rdma_poc.Protocol.{
  MemoryRegionHandle, MemoryRegionDescriptor, descriptor_from_pb, descriptor_to_pb,
}
use kv_rdma_poc.Transport.{TransferRequest, round_robin_sharded}
use kv_rdma_poc.Transport.Fabric.{
  FabricLib, FabricTransport, FabricDescriptor, SingleTransferRequest, submit_transfer_async,
}
use kv_rdma_poc.Transport.Fabric.CpuList.{parse_cpulist}
use kv_rdma_poc.Transport.Fabric.CpuList.RoundTrip.{
  single, span, print_all, expand_all, parse_cpulist-print,
}
use kv_rdma_poc.Examples.Setup.{mock_config}

abbrev region_at : ℕ → FabricDescriptor
region_at ptr = record { ptr = ptr; addr_rkey_list = (5 ∷ [], ptr) ∷ [] }

-- An engine whose keys say where the bytes go.
abbrev write_to : SingleTransferRequest → List (List ℕ × ℕ) → Exec Memory Message (Unit {0})
write_to r [] m = (err invalid_pointer, m)
write_to r ((_, key) ∷ _) m =
    (ok tt, copy m (r.src_mr - 1 + r.src_offset) (key + r.dst_offset) r.length)

-- A machine without a GPU.
abbrev copying : FabricLib
copying = record {
  Domain = Unit;
  Engine = Unit {0};
  detect_topology = ok [];
  build = λ _ _ _ _. ok tt;
  new_host_only = λ _ _ _. ok tt;
  main_address = λ _. 5 ∷ [];
  register_memory_allow_remote = λ _ ptr _. ok (ptr + 1, region_at ptr);
  submit_transfer = λ _ r m. write_to r r.dst_mr.addr_rkey_list m;
  submit_transfer_async = λ _ r m. write_to r r.dst_mr.addr_rkey_list m;
  read_to_string = λ _. ok [];
}

abbrev transport : FabricTransport copying
transport = record {
  config = mock_config;
  engine = tt;
  domain_addresses = record { bytes = 5 ∷ [] } ∷ [];
}

parse_cpulist-print_example :
    parse_cpulist (print_all (span 0 3) (single 8 ∷ []) ++ 10 ∷ [])
    ≡ ok (expand_all (span 0 3 ∷ single 8 ∷ []))
parse_cpulist-print_example =
    parse_cpulist-print (span 0 3) (single 8 ∷ []) (omega arith, (omega arith, tt))

abbrev source : MemoryRegionHandle
source = record { ptr = 101; len = 8 }

abbrev target : MemoryRegionDescriptor
target = record {
  ptr = 200;
  addr_rkey_list = (record { bytes = 5 ∷ [] }, record { key = 200 }) ∷ [];
}

abbrev request : TransferRequest
request = record {
  src_handle = source;
  src_offset = 2;
  length = 4;
  imm_data = none;
  dst_descriptor = descriptor_from_pb (descriptor_to_pb target);
  dst_offset = 1;
  routing = round_robin_sharded 0;
}
