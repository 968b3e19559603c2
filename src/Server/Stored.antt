-- ===== src/Server/Stored.antt =====
-- `put_value` of src/server.rs keeps the invariant.
use kv_rdma_poc.Shared.{
  ℕ, ◌+◌, ◌-◌, ◌≤◌, ◌<◌, ◌≡◌, ◌≢◌, refl, sym, ◌∙◌, ◌⊎◌, inl, inr, List, Option, none, some, arith,
  length, ℕ_discrete,
}
use kv_rdma_poc.Protocol.{CacheEntry}
use kv_rdma_poc.Memory.Bytes.{Memory, load, store, load-eq, load-store_self, store-eq_outside}
use kv_rdma_poc.Memory.FreeList.{FreeList, cover, covers, cover-insert, All-insert}
use kv_rdma_poc.Memory.FreeList.Sorted.{insert-IsSorted}
use kv_rdma_poc.Memory.Allocator.{BumpAllocator}
use kv_rdma_poc.Memory.Allocator.Conserve.{max_len, IsWellFormed}
use kv_rdma_poc.Memory.Allocator.Sound.{inside, CanServe, IsConserving}
use kv_rdma_poc.Server.EntryMap.{DashMap, Key}
use kv_rdma_poc.Server.{Host, put_value}
use kv_rdma_poc.Server.Consistent.{holds, IsConsistent}
use kv_rdma_poc.Server.Put.{freed, freed_list, entry_at, after_put, put_value_cases}

pub Key-discrete : Discrete Key
Key-discrete = hlevel ℕ_discrete

-- A write to a block leaves the bytes of a block that shares none with it.
load-store_apart :
    (m : Memory) (base p n r : ℕ) (bs : List ℕ)
    → ((x : ℕ) → covers x p n + covers x r (length bs) ≤ 1)
    → load (store m (base + r) bs) (base + p) n ≡ load m (base + p) n
load-store_apart m base p n r bs apart =
    load-eq (store m (base + r) bs) m (base + p) n
      λ q lo hi. store-eq_outside m (base + r) bs q (outside q lo hi (apart (q - base)))
  where
    outside :
        (q : ℕ)
        → base + p ≤ q
        → q < base + p + n
        → covers (q - base) p n + covers (q - base) r (length bs) ≤ 1
        → (q < base + r) ⊎ (base + r + length bs ≤ q)
    outside q lo hi h = ground arith

pub inside-le_one : (x l : ℕ) → inside x l ≤ 1
inside-le_one x l = ground arith

-- The bytes that the map held for a key.
abbrev pub held : ℕ → Option CacheEntry → ℕ
held x none = 0
held x (some e) = holds x e

pub cover-freed_list :
    (x : ℕ) (o : Option CacheEntry) (m : FreeList) → cover x (freed_list o m) ≤ cover x m + held x o
cover-freed_list x none m = omega arith
cover-freed_list x (some e) m = cover-insert x e.offset (length e.value) m

module _ {D : DashMap} (h : Host D) (s : IsConsistent h) (key : Key) where
  pub held_owned :
      (x : ℕ) (o : Option CacheEntry)
      → D.get key h.cache ≡ o
      → held x o + cover x h.memory_pool.allocator.free_list
        ≤ inside x h.memory_pool.allocator.offset
  held_owned x none e = omega (arith, s.free x)
  held_owned x (some f) e = s.owned key f x e

  pub held_apart :
      (x : ℕ) (o : Option CacheEntry) (j : Key) (f : CacheEntry)
      → key ≢ j
      → D.get key h.cache ≡ o
      → D.get j h.cache ≡ some f
      → held x o + holds x f + cover x h.memory_pool.allocator.free_list
        ≤ inside x h.memory_pool.allocator.offset
  held_apart x none j f ne e g = omega (arith, s.owned j f x g)
  held_apart x (some d) j f ne e g = s.apart key j d f x ne e g

  pub freed-IsWellFormed :
      (o : Option CacheEntry) (b : BumpAllocator)
      → D.get key h.cache ≡ o
      → h.memory_pool.allocator.offset ≤ b.offset
      → IsWellFormed b
      → IsWellFormed (freed o b)
  freed-IsWellFormed none b e l w = w
  freed-IsWellFormed (some f) b e l w = record {
    aligned = w.aligned;
    sorted = insert-IsSorted f.offset (length f.value) b.free_list w.sorted;
    bounded = w.bounded;
    small = w.small;
    within =
        All-insert (λ (p : ℕ × ℕ). p.0 + p.1 ≤ b.offset) f.offset (length f.value) b.free_list
          (omega (arith, s.bound key f e)) w.within;
  }

module _ (D : DashMap) (key : Key) (value : List ℕ) (ttl_seconds now : ℕ) (h : Host D)
    (s : IsConsistent h) (offset : ℕ) (b : BumpAllocator)
    (c : IsConserving (length value) h.memory_pool.allocator (some offset) b) where
  abbrev new_entry_at : CacheEntry
  new_entry_at = entry_at D key value ttl_seconds now h offset

  abbrev after : Host D
  after = after_put D key value ttl_seconds now h offset b

  -- An entry of the new map is the new one or an old one.
  found :
      (k : Key) (e : CacheEntry)
      → D.get k (D.insert key new_entry_at h.cache).1 ≡ some e
      → ((key ≡ k) × (e ≡ new_entry_at)) ⊎ ((key ≢ k) × (D.get k h.cache ≡ some e))
  found k e g = elim (Key-discrete key k) [
    | yes same ↦ inl (same, self same)
    | no other ↦ inr (other, sym (D.get-insert_ne key k new_entry_at h.cache other) ∙ g)
  ]
    where
      self : key ≡ k → e ≡ new_entry_at
      self same = cc (D.get-insert_self key new_entry_at h.cache)

  bytes_after :
      (k : Key) (e : CacheEntry)
      → D.get k (D.insert key new_entry_at h.cache).1 ≡ some e
      → load
          (store h.memory (h.memory_pool.buffer + offset) value)
          (h.memory_pool.buffer + e.offset)
          (length e.value)
        ≡ e.value
  bytes_after k e g = elim (found k e g) [
    | inl (_, new) ↦ rw new (load-store_self h.memory (h.memory_pool.buffer + offset) value)
    | inr (_, kept) ↦
        load-store_apart h.memory h.memory_pool.buffer e.offset (length e.value) offset value
          (λ x. omega (arith, c.conserves x, s.owned k e x kept, inside-le_one x b.offset))
        ∙ s.bytes k e kept
  ]

  bound_after :
      (k : Key) (e : CacheEntry)
      → D.get k (D.insert key new_entry_at h.cache).1 ≡ some e
      → e.offset + length e.value ≤ b.offset
  bound_after k e g = elim (found k e g) [
    | inl (_, new) ↦ rw new (c.in_range)
    | inr (_, kept) ↦ omega (arith, s.bound k e kept, c.grows)
  ]

  module _ (x : ℕ) where
    -- What the put does to the byte at `x`.
    budget :
        covers x offset (length value)
          + cover x (freed_list (D.get key h.cache) b.free_list)
          + inside x h.memory_pool.allocator.offset
        ≤ cover x h.memory_pool.allocator.free_list + held x (D.get key h.cache) + inside x b.offset
    budget = omega (arith, c.conserves x, cover-freed_list x (D.get key h.cache) b.free_list)

    owned_after :
        (k : Key) (e : CacheEntry)
        → D.get k (D.insert key new_entry_at h.cache).1 ≡ some e
        → holds x e + cover x (freed_list (D.get key h.cache) b.free_list) ≤ inside x b.offset
    owned_after k e g = elim (found k e g) [
      | inl (_, new) ↦ rw new (omega (arith, budget, held_owned h s key x (D.get key h.cache) refl))
      | inr (other, kept) ↦
          omega (arith, budget, held_apart h s key x (D.get key h.cache) k e other refl kept)
    ]

    new_apart :
        (j : Key) (f : CacheEntry)
        → key ≢ j
        → D.get j h.cache ≡ some f
        → covers x offset (length value)
            + holds x f
            + cover x (freed_list (D.get key h.cache) b.free_list)
          ≤ inside x b.offset
    new_apart j f other g =
        omega (arith, budget, held_apart h s key x (D.get key h.cache) j f other refl g)

    apart_after :
        (k j : Key) (e f : CacheEntry)
        → k ≢ j
        → D.get k (D.insert key new_entry_at h.cache).1 ≡ some e
        → D.get j (D.insert key new_entry_at h.cache).1 ≡ some f
        → holds x e + holds x f + cover x (freed_list (D.get key h.cache) b.free_list)
          ≤ inside x b.offset
    apart_after k j e f ne g g' = elim (found k e g) [
      | inl (same, new) ↦ elim (found j f g') [
        | inl (same', _) ↦ absurd (ne (sym same ∙ same'))
        | inr (other', kept') ↦ rw new (new_apart j f other' kept')
      ]
      | inr (other, kept) ↦ elim (found j f g') [
        | inl (_, new') ↦ rw new' (omega (arith, new_apart k e other kept))
        | inr (other', kept') ↦ omega (
          arith,
          budget,
          held_apart h s key x (D.get key h.cache) k e other refl kept,
          held_apart h s key x (D.get key h.cache) j f other' refl kept',
          s.apart k j e f x ne kept kept',
          inside-le_one x h.memory_pool.allocator.offset,
        )
      ]
    ]

  pub after_put-IsConsistent : IsConsistent after
  unfolding after_put
  after_put-IsConsistent = record {
    registered = record {
      well_formed = freed-IsWellFormed h s key (D.get key h.cache) b refl c.grows c.well_formed;
      whole = c.same_capacity ∙ s.registered.whole;
      base = s.registered.base;
      not_null = s.registered.not_null;
      addressed = s.registered.addressed;
    };
    free = λ x. omega (arith, budget x, held_owned h s key x (D.get key h.cache) refl);
    bytes = bytes_after;
    bound = bound_after;
    owned = λ k e x. owned_after x k e;
    apart = λ k j e f x. apart_after x k j e f;
  }

-- From a consistent host, a put of a value of at most max_len bytes that the free blocks can serve
-- ends in a consistent host, whether the value is stored or refused.
pub put_value-IsConsistent :
    (D : DashMap) (key : Key) (value : List ℕ) (ttl_seconds now : ℕ) (h : Host D)
    → IsConsistent h
    → length value ≤ max_len
    → CanServe h.memory_pool.allocator (length value)
    → IsConsistent (put_value D key value ttl_seconds now h).1
put_value-IsConsistent D key value ttl_seconds now h s small fits =
    elim (put_value_cases D key value ttl_seconds now h s.registered small fits) [
      | inl (e, _, _) ↦ rw e s
      | inr (offset, b, e, c, _) ↦
          rw e (after_put-IsConsistent D key value ttl_seconds now h s offset b c)
    ]
