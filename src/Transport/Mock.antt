-- ===== src/Transport/Mock.antt =====
-- `MockTransport` of src/transport.rs, which copies memory in the process, and `RdmaTransport`.
pub mod Copies
use kv_rdma_poc.Shared.{
  ℕ, zero, suc, ◌+◌, ◌||◌, List, [], ◌∷◌, ◌++◌, Option, none, some, map, true, ◌==◌, if◌then◌else◌,
  Outcome, ok, err, panic, Exec, pure, ◌>>=◌, ◌>>◌,
}
use kv_rdma_poc.Shared.Text.{codes, decimal, range_from}
use kv_rdma_poc.Shared.Word.{add64}
use kv_rdma_poc.Message.{Message, null_pointer, rdma_not_available}
use kv_rdma_poc.Protocol.{
  DomainAddress, MemoryRegionRemoteKey, MemoryRegionDescriptor, MemoryRegionHandle, new_descriptor,
}
use kv_rdma_poc.Memory.Bytes.{Memory, copy}
use kv_rdma_poc.Transport.{
  TransportConfig, TransferRequest, TransferResult, RdmaTransportTrait, RdmaTransport,
}

pub record MockTransport : Type 0 where
  pub config : TransportConfig
  pub domain_addresses : List DomainAddress

unfoldable pub mock_address : ℕ → ℕ → DomainAddress
mock_address node_id i = record {
  bytes = codes "mock://node" ++ (decimal node_id ++ (codes "/domain" ++ decimal i));
}

unfoldable pub new : TransportConfig → MockTransport
unfolding mock_address
new config = record {
  config = config;
  domain_addresses = map (mock_address config.node_id) (range_from 0 config.num_domains);
}

-- `enumerate()`, from `i` on, with the index as the key.
unfoldable pub enumerate_keys :
    ℕ → List DomainAddress → List (DomainAddress × MemoryRegionRemoteKey)
enumerate_keys i [] = []
enumerate_keys i (addr ∷ rest) = (addr, record { key = i }) ∷ enumerate_keys (suc i) rest

unfoldable pub register_memory :
    MockTransport → ℕ → ℕ → Outcome Message (MemoryRegionHandle × MemoryRegionDescriptor)
unfolding enumerate_keys new_descriptor
register_memory t ptr len =
    ok (record { ptr = ptr; len = len }, new_descriptor ptr (enumerate_keys 0 t.domain_addresses))

unfoldable pub submit_transfer : TransferRequest → Exec Memory Message (Unit {0})
submit_transfer request memory =
    let src_ptr = add64 request.src_handle.ptr request.src_offset in
    let dst_ptr = add64 request.dst_descriptor.ptr request.dst_offset in
    if src_ptr == 0 || dst_ptr == 0
    then (err (null_pointer src_ptr dst_ptr), memory)
    else (ok tt, copy memory src_ptr dst_ptr request.length)

unfoldable pub submit_transfer_async : TransferRequest → Exec Memory Message TransferResult
unfolding submit_transfer
submit_transfer_async request = do
  submit_transfer request
  pure (record { success = true; bytes_transferred = request.length; error = none })

unfoldable pub mock_trait : MockTransport → RdmaTransportTrait
unfolding register_memory submit_transfer_async
mock_trait t = record {
  domain_addresses = t.domain_addresses;
  register_memory = register_memory t;
  submit_transfer = submit_transfer;
  submit_transfer_async = submit_transfer_async;
  poll_completion = none;
}

-- `fabric` is `FabricTransport::new`, in a build with the feature `rdma`.
unfoldable pub new_transport :
    Option (TransportConfig → Outcome Message RdmaTransportTrait)
    → TransportConfig
    → Outcome Message RdmaTransport
unfolding new mock_trait
new_transport fabric config =
    if config.use_mock
    then ok (record { inner = mock_trait (new config); config = config })
    else elim fabric [
      | none ↦ err rdma_not_available
      | some fabric_new ↦ elim (fabric_new config) [
        | ok inner ↦ ok (record { inner = inner; config = config })
        | err m ↦ err m
        | panic ↦ panic
      ]
    ]
