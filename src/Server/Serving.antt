-- ===== src/Server/Serving.antt =====
-- The invariant of a server whose values are whole pages: then every free block can be split, and
-- no call needs a condition on the free list.
use kv_rdma_poc.Shared.{
  ℕ, ◌+◌, ◌≤◌, ◌≡◌, ◌≢◌, refl, sym, ◌∙◌, ◌⊎◌, inl, inr, List, Option, none, some, arith, length,
  false, Option-cases, Bool-cases,
}
use kv_rdma_poc.Protocol.{ValueLocation, CacheEntry, is_expired}
use kv_rdma_poc.Memory.FreeList.{FreeList, All-insert}
use kv_rdma_poc.Memory.Align.{Multiple}
use kv_rdma_poc.Memory.Allocator.{BumpAllocator}
use kv_rdma_poc.Memory.Allocator.Cases.{Served}
use kv_rdma_poc.Memory.Allocator.Conserve.{max_len}
use kv_rdma_poc.Memory.Allocator.Sound.{IsConserving}
use kv_rdma_poc.Memory.Allocator.Granular.{
  IsUnits, IsGranular, granular-CanServe, Served-Multiple, Served-IsGranular,
}
use kv_rdma_poc.Transport.Mock.Copies.{Delivers}
use kv_rdma_poc.Server.EntryMap.{DashMap, Key}
use kv_rdma_poc.Server.{Host, set_cache, put_value, get_and_transfer, delete_value}
use kv_rdma_poc.Server.Consistent.{IsConsistent}
use kv_rdma_poc.Server.Put.{freed_list, entry_at, after_put, put_value_cases}
use kv_rdma_poc.Server.Stored.{Key-discrete, after_put-IsConsistent}
use kv_rdma_poc.Server.Get.{
  IsTarget, target, after_transfer, after_transfer-IsConsistent, get_and_transfer_found,
  get_missing, get_expired,
}
use kv_rdma_poc.Server.Delete.{delete_value_lem, after_delete, delete_value-IsConsistent}

module _ {D : DashMap} where
  pub record IsServing (h : Host D) : Type 0 where
    pub consistent : IsConsistent h
    pub delivers : Delivers h.transport.inner
    pub free_units : IsGranular h.memory_pool.allocator.alignment h.memory_pool.allocator.free_list
    pub entry_units :
        (k : Key) (e : CacheEntry)
        → D.get k h.cache ≡ some e
        → IsUnits h.memory_pool.allocator.alignment (e.offset, length e.value)

module _ (D : DashMap) (key : Key) (h : Host D) (s : IsServing h) where
  -- What the map held for the key is whole units, too, when it is free.
  freed_units :
      (o : Option CacheEntry) (free : FreeList)
      → D.get key h.cache ≡ o
      → IsGranular h.memory_pool.allocator.alignment free
      → IsGranular h.memory_pool.allocator.alignment (freed_list o free)
  freed_units none free e g = g
  freed_units (some old) free e g =
      All-insert (IsUnits h.memory_pool.allocator.alignment) old.offset (length old.value) free
        (s.entry_units key old e) g

  kept :
      (k : Key) (e : CacheEntry)
      → D.get k (D.remove key h.cache).1 ≡ some e
      → (key ≢ k) × (D.get k h.cache ≡ some e)
  kept k e g = elim (Key-discrete key k) [
    | yes same ↦ absurd (gone same)
    | no other ↦ (other, sym (D.get-remove_ne key k h.cache other) ∙ g)
  ]
    where
      gone : key ≡ k → ⊥
      gone same = cc (D.get-remove_self key h.cache)

  pub delete_value-IsServing : IsServing (delete_value D key h).1
  delete_value-IsServing = record {
    consistent = delete_value-IsConsistent D key h s.consistent;
    delivers = rw (delete_value_lem D key h) (unfold after_delete in s.delivers);
    free_units = rw (delete_value_lem D key h) (
        unfold after_delete in
        freed_units (D.get key h.cache) h.memory_pool.allocator.free_list refl s.free_units);
    entry_units =
        rw (delete_value_lem D key h)
          (unfold after_delete in λ k e g. s.entry_units k e (kept k e g).1);
  }

  -- An entry that leaves the map without its memory being freed.
  pub forgotten-IsServing : IsServing (set_cache D (D.remove key h.cache).1 h)
  forgotten-IsServing = record {
    consistent = record {
      registered = s.consistent.registered;
      free = s.consistent.free;
      bytes = λ k e g. s.consistent.bytes k e (kept k e g).1;
      bound = λ k e g. s.consistent.bound k e (kept k e g).1;
      owned = λ k e x g. s.consistent.owned k e x (kept k e g).1;
      apart = λ k j e f x ne g g'. s.consistent.apart k j e f x ne (kept k e g).1 (kept j f g').1;
    };
    delivers = s.delivers;
    free_units = s.free_units;
    entry_units = λ k e g. s.entry_units k e (kept k e g).1;
  }

module _ (D : DashMap) (key : Key) (value : List ℕ) (ttl_seconds now : ℕ) (h : Host D)
    (s : IsServing h) (small : length value ≤ max_len)
    (units : Multiple h.memory_pool.allocator.alignment (length value)) where
  stored-IsServing :
      (offset : ℕ) (b : BumpAllocator)
      → IsConserving (length value) h.memory_pool.allocator (some offset) b
      → Served (length value) h.memory_pool.allocator (some offset) b
      → IsServing (after_put D key value ttl_seconds now h offset b)
  stored-IsServing offset b c v = record {
    consistent = after_put-IsConsistent D key value ttl_seconds now h s.consistent offset b c;
    delivers = unfold after_put in s.delivers;
    free_units =
        unfold after_put in
        rw c.same_alignment (
          freed_units D key h s (D.get key h.cache) b.free_list refl (
            Served-IsGranular (length value) h.memory_pool.allocator
              s.consistent.registered.well_formed small units s.free_units (some offset) b v));
    entry_units = unfold after_put in rw c.same_alignment entry_after;
  }
    where
      entry_after :
          (k : Key) (e : CacheEntry)
          → D.get k (D.insert key (entry_at D key value ttl_seconds now h offset) h.cache).1
            ≡ some e
          → IsUnits h.memory_pool.allocator.alignment (e.offset, length e.value)
      entry_after k e g = elim (Key-discrete key k) [
        | yes same ↦ rw (new same) (
          Served-Multiple (length value) h.memory_pool.allocator s.consistent.registered.well_formed
              small units s.free_units offset b v,
          units,
        )
        | no other ↦ s.entry_units k e (
            sym
              (D.get-insert_ne key k (entry_at D key value ttl_seconds now h offset) h.cache other)
            ∙ g)
      ]
        where
          new : key ≡ k → e ≡ entry_at D key value ttl_seconds now h offset
          new same =
              cc (D.get-insert_self key (entry_at D key value ttl_seconds now h offset) h.cache)

  pub put_value-IsServing : IsServing (put_value D key value ttl_seconds now h).1
  put_value-IsServing =
      elim (put_value_cases D key value ttl_seconds now h s.consistent.registered small (
        granular-CanServe (length value) h.memory_pool.allocator s.consistent.registered.well_formed
          small units s.free_units)) [
            | inl (e, _, _) ↦ rw e s
            | inr (offset, b, e, c, v) ↦ rw e (stored-IsServing offset b c v)
          ]

-- A value that is written to `loc` meets no address of the pool.
abbrev pub IsOutside : {D : DashMap} → Host D → ValueLocation → Type 0
IsOutside h loc =
    (h.memory_pool.buffer + h.memory_pool.buffer_len ≤ target loc)
    ⊎ (target loc + h.memory_pool.buffer_len ≤ h.memory_pool.buffer)

module _ (D : DashMap) (key : Key) (loc : ValueLocation) (now : ℕ) (h : Host D) (s : IsServing h)
    (l : IsTarget loc) (outside : IsOutside h loc) where
  found-IsServing :
      (e : CacheEntry)
      → D.get key h.cache ≡ some e
      → is_expired e now ≡ false
      → IsServing (after_transfer D key loc now h e)
  found-IsServing e found live = record {
    consistent = after_transfer-IsConsistent D key loc now h e s.consistent (
        ground (
          arith,
          outside,
          s.consistent.bound key e found,
          s.consistent.registered.whole,
          s.consistent.registered.well_formed.bounded,
        ));
    delivers = s.delivers;
    free_units = s.free_units;
    entry_units = s.entry_units;
  }

  pub get_and_transfer-IsServing : IsServing (get_and_transfer D key loc now h).1
  get_and_transfer-IsServing = elim (Option-cases (D.get key h.cache)) [
    | inl missing ↦ rw (get_missing D key loc now h missing) s
    | inr (e, found) ↦ elim (Bool-cases (is_expired e now)) [
      | inl dead ↦ rw (get_expired D key loc now h e found dead) (forgotten-IsServing D key h s)
      | inr live ↦
          rw (get_and_transfer_found D key loc now h e s.consistent s.delivers l found live)
            (found-IsServing e found live)
    ]
  ]
