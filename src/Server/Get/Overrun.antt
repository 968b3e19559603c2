-- ===== src/Server/Get/Overrun.antt =====
-- What `get_and_transfer` of src/server.rs does where the response location is too short.
use kv_rdma_poc.Shared.{
  ℕ, zero, suc, ◌+◌, ◌≤◌, ◌<◌, ◌≡◌, sym, ap, ◌∙◌, inl, some, false, get_or, length, ok, arith,
}
use kv_rdma_poc.Memory.Bytes.{Memory, load}
use kv_rdma_poc.Protocol.{ValueLocation, CacheEntry, is_expired}
use kv_rdma_poc.Transport.Mock.Copies.{Delivers}
use kv_rdma_poc.Server.EntryMap.{DashMap, Key}
use kv_rdma_poc.Server.{Host, get_and_transfer}
use kv_rdma_poc.Server.Consistent.{IsConsistent}
use kv_rdma_poc.Server.Get.{IsTarget, target, get_arrives}

get_or-load : (m : Memory) (p n i : ℕ) → i < n → get_or (load m p n) i 0 ≡ m (p + i)
unfolding load
get_or-load m p zero i h = absurd (omega arith)
get_or-load m p (suc n) zero h = ap m (omega arith)
get_or-load m p (suc n) (suc i) h = get_or-load m (p + 1) n i (omega arith) ∙ ap m (omega arith)

module _ (D : DashMap) (key : Key) (loc : ValueLocation) (now : ℕ) (h : Host D) where
  -- On a consistent server whose transport delivers, a get of a live entry whose value is longer
  -- than the response location, with a target that is not null and does not wrap round, reports
  -- success with the length of the value, and every byte of the value past the length of the
  -- location is written past it.
  pub get_overruns :
      (e : CacheEntry) (i : ℕ)
      → IsConsistent h
      → Delivers h.transport.inner
      → IsTarget loc
      → D.get key h.cache ≡ some e
      → is_expired e now ≡ false
      → loc.length ≤ i
      → i < length e.value
      → ((get_and_transfer D key loc now h).0 ≡ ok (length e.value))
        × ((get_and_transfer D key loc now h).1.memory (target loc + i) ≡ get_or e.value i 0)
  get_overruns e i s t l found live past within =
      let (done, arrived, _, _) =
        get_arrives D key loc now h e 0 0 s t l found live (inl (omega arith)) in
      (
        done,
        sym (
              get_or-load (get_and_transfer D key loc now h).1.memory (target loc) (length e.value)
                i within)
            ∙ ap (λ v. get_or v i 0) arrived,
      )
