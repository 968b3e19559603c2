-- ===== src/Server/Threads/Moves.antt =====
-- One step of one task, seen from the map with the blocks of the tasks.
use mathlib.Core.Path.{fun_ext}
use kv_rdma_poc.Shared.{
  ℕ, ◌+◌, ◌≤◌, ◌≡◌, refl, sym, ◌∙◌, ap, subst, List, [], Option, none, some, arith, length, Outcome,
  ok, err, panic, Exec, and_then, pure,
}
use kv_rdma_poc.Message.{Message}
use kv_rdma_poc.Protocol.{ValueLocation, CacheEntry, new_entry, len}
use kv_rdma_poc.Memory.Align.{Multiple}
use kv_rdma_poc.Memory.Allocator.Conserve.{max_len}
use kv_rdma_poc.Memory.Allocator.{deallocate}
use kv_rdma_poc.Memory.Pool
use kv_rdma_poc.Memory.Pool.{PoolAllocation}
use kv_rdma_poc.Server.EntryMap.{DashMap, Key}
use kv_rdma_poc.Server.{
  Host, set_cache, on_pool, on_memory, release, store_entry, transfer, put_value,
}
use kv_rdma_poc.Server.Put.{freed, store_entry_lem}
use kv_rdma_poc.Server.Get.{IsTarget, transfer_copies, after_transfer-IsConsistent}
use kv_rdma_poc.Server.Delete.{after_delete, delete_value_lem}
use kv_rdma_poc.Server.Serving.{
  IsServing, IsOutside, put_value-IsServing, delete_value-IsServing, forgotten-IsServing,
}
use kv_rdma_poc.Server.Threads.{write_value, then_store, begin_put, Point, storing, freeing}
use kv_rdma_poc.Server.Threads.Overlay.{
  Side, assign, assign_self, of_map, of_task, overlay, mirror, move-IsServing,
}

-- The block that a task has taken out of the pool, or has not yet given back.
abbrev pub owned : Point → Option CacheEntry
owned (storing key e) = some e
owned (freeing e) = some e
owned _ = none

and_then_assoc :
    {S E A B C : Type 0} (x : Outcome E A × S) (k : A → Exec S E B) (l : B → Exec S E C)
    → and_then (and_then x k) l ≡ and_then x (λ a s. and_then (k a s) l)
and_then_assoc (ok a, s) k l = refl
and_then_assoc (err e, s) k l = refl
and_then_assoc (panic, s) k l = refl

-- A put is its first part and then `store_entry`.
pub put_value-write_value :
    (D : DashMap) (key : Key) (value : List ℕ) (ttl_seconds now : ℕ) (h : Host D)
    → put_value D key value ttl_seconds now h
      ≡ and_then (write_value D value ttl_seconds now h) (store_entry D key)
unfolding put_value write_value
put_value-write_value D key value ttl_seconds now h = sym (
    and_then_assoc x (λ a s. and_then (written a s) (λ _. pure (entry a))) (store_entry D key)
    ∙ ap (λ k. and_then x k)
        (fun_ext
          λ a. fun_ext λ s. and_then_assoc (written a s) (λ _. pure (entry a)) (store_entry D key)))
  where
    x : Outcome Message PoolAllocation × Host D
    x = on_pool D (Pool.allocate (length value)) h

    written : PoolAllocation → Exec (Host D) Message (Unit {0})
    written a = on_memory D (λ h. Pool.write h.memory_pool a.offset value)

    entry : PoolAllocation → CacheEntry
    entry a = new_entry value a.offset ttl_seconds now

module _ (D : DashMap) (g : Side) where
  abbrev pub mirrored :
      {A : Type 0} → Outcome Message A × Host D → Outcome Message A × Host (overlay D)
  mirrored (r, h) = (r, mirror h g)

  and_then-mirrored :
      {A B : Type 0} (x : Outcome Message A × Host D) (k : A → Exec (Host D) Message B)
      (l : A → Exec (Host (overlay D)) Message B)
      → ((a : A) (h : Host D) → l a (mirror h g) ≡ mirrored (k a h))
      → and_then (mirrored x) l ≡ mirrored (and_then x k)
  and_then-mirrored (ok a, h) k l e = e a h
  and_then-mirrored (err m, h) k l e = refl
  and_then-mirrored (panic, h) k l e = refl

  write_value-mirrored :
      (value : List ℕ) (ttl_seconds now : ℕ) (h : Host D)
      → write_value (overlay D) value ttl_seconds now (mirror h g)
        ≡ mirrored (write_value D value ttl_seconds now h)
  unfolding write_value
  write_value-mirrored value ttl_seconds now h =
      and_then-mirrored (on_pool D (Pool.allocate (length value)) h)
        (λ a h.
          and_then (on_memory D (λ h. Pool.write h.memory_pool a.offset value) h)
            (λ _. pure (new_entry value a.offset ttl_seconds now)))
        (λ a h.
          and_then (on_memory (overlay D) (λ h. Pool.write h.memory_pool a.offset value) h)
            (λ _. pure (new_entry value a.offset ttl_seconds now)))
        λ a h.
          and_then-mirrored (on_memory D (λ h. Pool.write h.memory_pool a.offset value) h)
            (λ _. pure (new_entry value a.offset ttl_seconds now))
            (λ _. pure (new_entry value a.offset ttl_seconds now)) λ _ h. refl

module _ (D : DashMap) (h : Host D) (g : Side) (i : ℕ) (s : IsServing (mirror h g)) where
  abbrev E : DashMap
  E = overlay D

  pub begin_delete-IsServing :
      (key : Key) (e : CacheEntry)
      → D.get key h.cache ≡ some e
      → IsServing (mirror (set_cache D (D.remove key h.cache).1 h) (assign (of_task i) (some e) g))
  begin_delete-IsServing key e found =
      move-IsServing E (mirror h g) ((D.remove key h.cache).1, assign (of_task i) (some e) g)
        (of_map key) (of_task i) (λ d same. found ∙ sym (assign_self (of_task i) (some e) g) ∙ same)
        (D.get-remove_self key h.cache)
        (λ k not_key not_task.
          E.get-insert_ne (of_task i) k e ((D.remove key h.cache).1, g) not_task
          ∙ E.get-remove_ne (of_map key) k (h.cache, g) not_key)
        s

  pub store_entry-IsServing :
      (key : Key) (e : CacheEntry)
      → g (of_task i) ≡ some e
      → IsServing (mirror (store_entry D key e h).1 (assign (of_task i) none g))
  unfolding after_delete
  store_entry-IsServing key e held = rw (store_entry_lem D key e h) (
      move-IsServing E (mirror (after_delete D key h) g)
        ((D.insert key e h.cache).1, assign (of_task i) none g) (of_task i) (of_map key)
        (λ d same. held ∙ sym (D.get-insert_self key e h.cache) ∙ same)
        (assign_self (of_task i) none g)
        (λ k not_task not_key.
          E.get-remove_ne (of_task i) k ((D.insert key e h.cache).1, g) not_task
          ∙ E.get-insert_ne (of_map key) k e (h.cache, g) not_key
          ∙ sym (E.get-remove_ne (of_map key) k (h.cache, g) not_key))
        removed)
    where
      removed : IsServing (mirror (after_delete D key h) g)
      removed =
          subst (λ x. IsServing (x.1)) (delete_value_lem E (of_map key) (mirror h g))
            (delete_value-IsServing E (of_map key) (mirror h g) s)

  pub release-IsServing :
      (e : CacheEntry)
      → g (of_task i) ≡ some e
      → IsServing (mirror (release D e h) (assign (of_task i) none g))
  unfolding release Pool.deallocate deallocate len after_delete
  release-IsServing e held =
      subst (λ o. IsServing {D = E} (mirror (returned o) (assign (of_task i) none g))) held
        (subst (λ x. IsServing (x.1)) (delete_value_lem E (of_task i) (mirror h g))
          (delete_value-IsServing E (of_task i) (mirror h g) s))
    where
      returned : Option CacheEntry → Host D
      returned o = record h {
        server = record h.server {
          memory_pool = record h.memory_pool { allocator = freed o h.memory_pool.allocator };
        };
      }

  pub expire-IsServing : (key : Key) → IsServing (mirror (set_cache D (D.remove key h.cache).1 h) g)
  expire-IsServing key = forgotten-IsServing E (of_map key) (mirror h g) s

  pub transfer-IsServing :
      (e : CacheEntry) (loc : ValueLocation)
      → e.offset + length e.value ≤ h.memory_pool.allocator.offset
      → IsTarget loc
      → IsOutside h loc
      → IsServing (mirror (transfer D e loc h).1 g)
  transfer-IsServing e loc bound l outside =
      rw (transfer_copies D [] loc 0 h e s.consistent.registered s.delivers l bound) (record {
        consistent = after_transfer-IsConsistent E [] loc 0 (mirror h g) e s.consistent (
            ground (
              arith, outside, bound, s.consistent.registered.whole,
              s.consistent.registered.well_formed.bounded,
            ));
        delivers = s.delivers;
        free_units = s.free_units;
        entry_units = s.entry_units;
      })

-- A put for any key is its first part on the map of the server, and then the store.
pub put_value-mirrored :
    (D : DashMap) (g : Side) (key : Key) (value : List ℕ) (ttl_seconds now : ℕ) (h : Host D)
    → put_value (overlay D) key value ttl_seconds now (mirror h g)
      ≡ and_then
          (mirrored D g (write_value D value ttl_seconds now h))
          (store_entry (overlay D) key)
put_value-mirrored D g key value ttl_seconds now h =
    put_value-write_value (overlay D) key value ttl_seconds now (mirror h g)
    ∙ ap (λ x. and_then x (store_entry (overlay D) key))
        (write_value-mirrored D g value ttl_seconds now h)

-- The block that a put has written is the task's own.
module _ (D : DashMap) (g : Side) (i : ℕ) (key : Key) (none_held : g (of_task i) ≡ none) where
  written-IsServing :
      (x : Outcome Message CacheEntry × Host D)
      → IsServing (and_then (mirrored D g x) (store_entry (overlay D) (of_task i))).1
      → IsServing (mirror x.1 (assign (of_task i) (owned (then_store key x.0)) g))
  written-IsServing (ok e, h) s =
      subst (λ o. IsServing {D = overlay D} (mirror (returned o) (assign (of_task i) (some e) g)))
        none_held
        (subst (λ x. IsServing (x.1)) (store_entry_lem (overlay D) (of_task i) e (mirror h g)) s)
    where
      returned : Option CacheEntry → Host D
      returned o = record h {
        server = record h.server {
          memory_pool = record h.memory_pool { allocator = freed o h.memory_pool.allocator };
        };
      }
  written-IsServing (err m, h) s = forgotten-IsServing (overlay D) (of_task i) (mirror h g) s
  written-IsServing (panic, h) s = forgotten-IsServing (overlay D) (of_task i) (mirror h g) s

  pub begin_put-IsServing :
      (value : List ℕ) (ttl_seconds now : ℕ) (h : Host D)
      → IsServing (mirror h g)
      → length value ≤ max_len
      → Multiple h.memory_pool.allocator.alignment (length value)
      → let r = begin_put D key value ttl_seconds now h in
        IsServing (mirror r.1 (assign (of_task i) (owned r.0) g))
  unfolding begin_put
  begin_put-IsServing value ttl_seconds now h s small units =
      written-IsServing (write_value D value ttl_seconds now h) (
        subst (λ x. IsServing (x.1)) (put_value-mirrored D g (of_task i) value ttl_seconds now h)
          (put_value-IsServing (overlay D) (of_task i) value ttl_seconds now (mirror h g) s small
            units))
