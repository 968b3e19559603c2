-- ===== src/Transport/Fabric/Engine.antt =====
-- What the fabric transport does with its engine.
use kv_rdma_poc.Transport.Fabric.CpuList.RoundTrip.{}
use kv_rdma_poc.Shared.{ℕ, ◌+◌, ◌<◌, ◌≤◌, map, ◌≡◌, refl, List, some, arith, ◌==◌, false, ok, err}
use kv_rdma_poc.Message.{Message}
use kv_rdma_poc.Protocol.{MemoryRegionDescriptor, MemoryRegionHandle, new_descriptor}
use kv_rdma_poc.Memory.Bytes.{Memory, copy}
use kv_rdma_poc.Transport.{TransferRequest}
use kv_rdma_poc.Transport.Fabric.{
  round_robin_shards, FabricLib, FabricTransport, SingleTransferRequest, FabricDescriptor,
  convert_mr_descriptor, convert_mr_handle, convert_routing, fabric_request, submit_transfer_async,
}

-- What fabric_lib promises of two of its engines: an engine gives out handles that are not null, and
-- a request that names a region registered at the sender and, by its whole descriptor, a region
-- registered at the receiver, within the bounds of both, and goes round robin over at least one
-- shard, copies between these regions.
pub record IsOneSided (F : FabricLib) (sender receiver : F.Engine) : Type 0 where
  pub not_null :
      (ptr len mr : ℕ) (d : FabricDescriptor)
      → F.register_memory_allow_remote sender ptr len ≡ ok (mr, d)
      → 0 < mr
  pub copies :
      (src src_len mr dst dst_len mr' shards : ℕ) (d d' : FabricDescriptor)
      (r : SingleTransferRequest) (m : Memory)
      → F.register_memory_allow_remote sender src src_len ≡ ok (mr, d)
      → F.register_memory_allow_remote receiver dst dst_len ≡ ok (mr', d')
      → r.src_mr ≡ mr
      → r.dst_mr ≡ d'
      → 0 < shards
      → r.domain ≡ round_robin_shards shards
      → r.src_offset + r.length ≤ src_len
      → r.dst_offset + r.length ≤ dst_len
      → F.submit_transfer_async sender r m
        ≡ (ok tt, copy m (src + r.src_offset) (dst + r.dst_offset) r.length)

-- The pair that register_memory makes of what the library has registered.
module _ (F : FabricLib) (t : FabricTransport F) (ptr len : ℕ) (handle : MemoryRegionHandle)
    (descriptor : MemoryRegionDescriptor) where
  described : ℕ × FabricDescriptor → MemoryRegionHandle × MemoryRegionDescriptor
  unfolding new_descriptor
  described r = (
    record { ptr = r.0; len = len },
    new_descriptor r.1.ptr (
        map (λ (item : List ℕ × ℕ). (record { bytes = item.0 }, record { key = item.1 }))
          r.1.addr_rkey_list),
  )

  pub record IsRegion : Type 0 where
    pub mr : ℕ
    pub region : FabricDescriptor
    pub registered : F.register_memory_allow_remote t.engine ptr len ≡ ok (mr, region)
    pub same_mr : handle.ptr ≡ mr
    pub same_region : convert_mr_descriptor descriptor ≡ region

module _ (F : FabricLib) (t : FabricTransport F) where
  -- A failed transfer.
  pub submit_transfer_async_failed :
      (r : TransferRequest) (m m' : Memory) (e : Message)
      → 0 < r.src_handle.ptr
      → F.submit_transfer_async t.engine (fabric_request F r r.src_handle.ptr) m ≡ (err e, m')
      → submit_transfer_async F t r m
        ≡ (ok (record { success = false; bytes_transferred = 0; error = some e }), m')
  unfolding submit_transfer_async convert_mr_descriptor convert_mr_handle convert_routing
  submit_transfer_async_failed r m m' e pos failed = rw not_null (rw failed refl)
    where
      not_null : (r.src_handle.ptr == 0) ≡ false
      not_null = ground arith
