-- ===== src/Transport/Mock/Copies.antt =====
-- What a transfer does to the memory, as an interface, and the mock transport as an instance.
use kv_rdma_poc.Shared.{◌+◌, ◌<◌, ◌≡◌, refl, ◌||◌, ◌==◌, false, true, none, ok, arith}
use kv_rdma_poc.Shared.Word.{word, add64}
use kv_rdma_poc.Memory.Bytes.{Memory, copy}
use kv_rdma_poc.Transport.{TransferRequest, TransferResult, RdmaTransportTrait}
use kv_rdma_poc.Transport.Mock.{MockTransport, submit_transfer, submit_transfer_async, mock_trait}

-- Neither end of the transfer is null, and neither wraps round.
pub record IsAddressed (r : TransferRequest) : Type 0 where
  pub src_pos : 0 < r.src_handle.ptr
  pub dst_pos : 0 < r.dst_descriptor.ptr
  pub src_fits : r.src_handle.ptr + r.src_offset < word
  pub dst_fits : r.dst_descriptor.ptr + r.dst_offset < word

-- A transfer that is asked for between such addresses succeeds and copies the bytes.
pub record Delivers (t : RdmaTransportTrait) : Type 0 where
  pub delivers :
      (r : TransferRequest) (m : Memory)
      → IsAddressed r
      → (result : TransferResult) × (t.submit_transfer_async r m ≡ (
        ok result,
        copy m (r.src_handle.ptr + r.src_offset) (r.dst_descriptor.ptr + r.dst_offset) r.length,
      ))
        × (result.success ≡ true)

submit_transfer-eq_copy :
    (r : TransferRequest) (m : Memory)
    → IsAddressed r
    → submit_transfer r m ≡ (
      ok tt,
      copy m (r.src_handle.ptr + r.src_offset) (r.dst_descriptor.ptr + r.dst_offset) r.length,
    )
unfolding submit_transfer
submit_transfer-eq_copy r m a = rw (src, dst) (rw (not_null) refl)
  where
    src : add64 r.src_handle.ptr r.src_offset ≡ r.src_handle.ptr + r.src_offset
    src = omega (arith, a.src_fits)

    dst : add64 r.dst_descriptor.ptr r.dst_offset ≡ r.dst_descriptor.ptr + r.dst_offset
    dst = omega (arith, a.dst_fits)

    not_null :
        (r.src_handle.ptr + r.src_offset == 0 || r.dst_descriptor.ptr + r.dst_offset == 0) ≡ false
    not_null = ground (arith, a.src_pos, a.dst_pos)

-- A transfer between addresses that are not null and do not wrap round succeeds, reports its whole
-- length, and copies that many bytes from the source to the destination.
pub submit_transfer_async_copies :
    (r : TransferRequest) (m : Memory)
    → IsAddressed r
    → submit_transfer_async r m ≡ (
      ok (record { success = true; bytes_transferred = r.length; error = none }),
      copy m (r.src_handle.ptr + r.src_offset) (r.dst_descriptor.ptr + r.dst_offset) r.length,
    )
unfolding submit_transfer_async
submit_transfer_async_copies r m a = rw (submit_transfer-eq_copy r m a)

pub mock-Delivers : (t : MockTransport) → Delivers (mock_trait t)
unfolding mock_trait
mock-Delivers t = record {
  delivers = λ r m a. (
    record { success = true; bytes_transferred = r.length; error = none },
    submit_transfer_async_copies r m a,
    refl,
  );
}
