-- ===== src/Server/Room.antt =====
-- When a `put` of src/server.rs cannot fail: the bytes above the bump offset are enough for it.
use kv_rdma_poc.Shared.{ℕ, ◌+◌, ◌≤◌, ◌≡◌, inl, inr, List, some, arith, length, ok}
use kv_rdma_poc.Shared.Word.{add64}
use kv_rdma_poc.Memory.Align.{Multiple, align_up, align_up-Multiple}
use kv_rdma_poc.Memory.Allocator.{BumpAllocator}
use kv_rdma_poc.Memory.Allocator.Cases.{Served, reused, bumped, exhausted}
use kv_rdma_poc.Memory.Allocator.Conserve.{max_len, IsWellFormed}
use kv_rdma_poc.Memory.Allocator.Sound.{IsConserving}
use kv_rdma_poc.Memory.Allocator.Granular.{granular-CanServe}
use kv_rdma_poc.Server.EntryMap.{DashMap, Key}
use kv_rdma_poc.Server.{Host, put_value}
use kv_rdma_poc.Server.Put.{after_put, put_value_cases}
use kv_rdma_poc.Server.Serving.{IsServing}

-- This many bytes are left above the bump offset, which is aligned.
pub record HasRoom (a : BumpAllocator) (bytes : ℕ) : Type 0 where
  pub above : Multiple a.alignment a.offset
  pub room : a.offset + bytes ≤ a.capacity

Multiple-add : (a x y : ℕ) → Multiple a x → Multiple a y → Multiple a (x + y)
Multiple-add a x y (p, e) (q, f) = (p + q, grind arith)

module _ (a : BumpAllocator) (w : IsWellFormed a) (size rest : ℕ)
    (units : Multiple a.alignment size) (r : HasRoom a (size + rest)) where
  at_offset : align_up a.alignment a.offset ≡ a.offset
  at_offset =
      align_up-Multiple a.alignment a.offset w.aligned (omega (arith, w.bounded, w.small)) r.above

  fits : add64 (align_up a.alignment a.offset) size ≡ a.offset + size
  fits = rw at_offset (omega (arith, r.room, w.small))

  Served-HasRoom : (o : ℕ) (b : BumpAllocator) → Served size a (some o) b → HasRoom b rest
  Served-HasRoom o b (reused _ _ _ _ _ e) =
      rw e (record { above = r.above; room = omega (arith, r.room) })
  Served-HasRoom o b (bumped _ _ e) = rw e (
      rw fits (record {
        above = Multiple-add a.alignment a.offset size r.above units;
        room = omega (arith, r.room);
      }))
  Served-HasRoom o b (exhausted _ _ e _) = cc

-- A serving host with room above an aligned bump offset for a value of whole pages and of at most
-- max_len bytes, and for some bytes more, stores the value, and has room for the bytes left.
pub put_value_room :
    (D : DashMap) (key : Key) (value : List ℕ) (ttl_seconds now rest : ℕ) (h : Host D)
    → IsServing h
    → length value ≤ max_len
    → Multiple h.memory_pool.allocator.alignment (length value)
    → HasRoom h.memory_pool.allocator (length value + rest)
    → (o : ℕ) × (b : BumpAllocator) × (put_value D key value ttl_seconds now h
        ≡ (ok tt, after_put D key value ttl_seconds now h o b))
      × IsConserving (length value) h.memory_pool.allocator (some o) b
      × HasRoom b rest
put_value_room D key value ttl_seconds now rest h s small units r =
    elim (put_value_cases D key value ttl_seconds now h s.consistent.registered small (
      granular-CanServe (length value) h.memory_pool.allocator s.consistent.registered.well_formed
        small units s.free_units)) [
          | inl (_, _, full) ↦ absurd (
              omega (
                arith,
                full,
                r.room,
                fits h.memory_pool.allocator s.consistent.registered.well_formed (length value) rest
                    units r,
              ))
          | inr (o, b, done, c, v) ↦ (
            o,
            b,
            done,
            c,
            Served-HasRoom h.memory_pool.allocator s.consistent.registered.well_formed
                (length value) rest units r o b v,
          )
        ]
