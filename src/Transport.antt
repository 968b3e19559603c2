-- ===== src/Transport.antt =====
-- src/transport.rs: requests and results, the trait that a transport implements, and the wrapper
-- that the client and the server hold. A transfer acts on the memory of the process that it
-- writes to; addresses are words, and their sums wrap round.
pub mod Mock
pub mod Fabric
use kv_rdma_poc.Shared.{
  ℕ, Bool, true, false, List, Option, none, some, if◌then◌else◌, Outcome, ok, err, Exec,
}
use kv_rdma_poc.Message.{Message, rdma_not_available}
use kv_rdma_poc.Protocol.{DomainAddress, MemoryRegionDescriptor, MemoryRegionHandle}
use kv_rdma_poc.Memory.Bytes.{Memory}

pub record TransportConfig : Type 0 where
  pub node_id : ℕ
  pub num_domains : ℕ
  pub use_mock : Bool

abbrev pub default_config : TransportConfig
default_config = record { node_id = 0; num_domains = 1; use_mock = true }

pub data DomainRouting : Type 0 where
  round_robin_sharded pinned : ℕ → DomainRouting

abbrev pub default_routing : DomainRouting
default_routing = round_robin_sharded 1

pub record TransferRequest : Type 0 where
  pub src_handle : MemoryRegionHandle
  pub src_offset : ℕ
  pub length : ℕ
  pub imm_data : Option ℕ
  pub dst_descriptor : MemoryRegionDescriptor
  pub dst_offset : ℕ
  pub routing : DomainRouting

pub record TransferResult : Type 0 where
  pub success : Bool
  pub bytes_transferred : ℕ
  pub error : Option Message

-- `RdmaTransportTrait`. The futures are awaited where they are made.
pub record RdmaTransportTrait : Type 0 where
  pub domain_addresses : List DomainAddress
  pub register_memory : ℕ → ℕ → Outcome Message (MemoryRegionHandle × MemoryRegionDescriptor)
  pub submit_transfer : TransferRequest → Exec Memory Message (Unit {0})
  pub submit_transfer_async : TransferRequest → Exec Memory Message TransferResult
  pub poll_completion : Option TransferResult

pub record RdmaTransport : Type 0 where
  pub inner : RdmaTransportTrait
  pub config : TransportConfig
