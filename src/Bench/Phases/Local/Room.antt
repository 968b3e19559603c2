-- ===== src/Bench/Phases/Local/Room.antt =====
-- When the puts of src/bin/bench.rs cannot fail.
use kv_rdma_poc.Shared.{ℕ, ◌+◌, ◌*◌, ◌≤◌, ◌≡◌, refl, ap, ◌∙◌, List, [], ◌∷◌, arith, length, ok}
use kv_rdma_poc.Server.EntryMap.{DashMap, Key}
use kv_rdma_poc.Server.{KvCacheServer}
use kv_rdma_poc.Server.Put.{after_put}
use kv_rdma_poc.Server.Room.{HasRoom, put_value_room}
use kv_rdma_poc.Client
use kv_rdma_poc.Client.{Process, max_inline_size}
use kv_rdma_poc.Client.Put.{put_local, put_outcome}
use kv_rdma_poc.Bench.Phases.{put_all}
use kv_rdma_poc.Bench.Phases.Local.Written.{
  CanTake, Writes, Writes-cons, served, after, after-Writes,
}

module _ (D : DashMap) (now : ℕ) (value : List ℕ) (ttl : ℕ) where
  -- The server has room for this many bytes.
  abbrev pub RoomAt : Process (KvCacheServer D) → ℕ → Type 0
  RoomAt p bytes = HasRoom p.remote.memory_pool.allocator bytes

  put-Writes_room :
      (key : Key) (p : Process (KvCacheServer D)) (rest : ℕ)
      → length value ≤ max_inline_size
      → CanTake D now value ttl p
      → RoomAt p (length value + rest)
      → (p' : Process (KvCacheServer D)) × (Client.put key value ttl p ≡ (ok tt, p'))
        × Writes D now value ttl (key ∷ []) p p'
        × RoomAt p' rest
  unfolding after after_put
  put-Writes_room key p rest small (local, s, units) r =
      let (o, b, done, c, left) =
        put_value_room D key value ttl now rest (served D now value ttl key p) s (omega arith) units
          r in
      (
        after D now value ttl key p o b,
        put_local D now key value ttl p local small ∙ ap (put_outcome D now key value ttl p) done,
        after-Writes D now value ttl key p o b (omega arith) (local, s, units) done
            c.same_alignment,
        record { above = left.above; room = left.room },
      )

  -- With room for every value, every key gets the value.
  pub put_all_room :
      (keys : List Key) (p : Process (KvCacheServer D))
      → length value ≤ max_inline_size
      → CanTake D now value ttl p
      → RoomAt p (length keys * length value)
      → (p' : Process (KvCacheServer D)) × (put_all value ttl keys p ≡ (ok tt, p'))
        × Writes D now value ttl keys p p'
  unfolding put_all
  put_all_room [] p small can r = (
    p,
    refl,
    record { can_take = can; client = refl; pool = refl; kept = λ k h. h; written = tt },
  )
  put_all_room (key ∷ keys) p small can r =
      let (p', done, one, left) =
        put-Writes_room key p (length keys * length value) small can
          (record { above = r.above; room = grind (arith, r.room) }) in
      let (p'', rest, w) = put_all_room keys p' small one.can_take left in
      (p'', rw done rest, Writes-cons D now value ttl key keys p p' p'' one w)
