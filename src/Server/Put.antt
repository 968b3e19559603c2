-- ===== src/Server/Put.antt =====
-- `put_value` of src/server.rs, case by case.
use kv_rdma_poc.Shared.{
  ℕ, ◌+◌, ◌≤◌, ◌<◌, ◌≡◌, refl, ◌⊎◌, inl, inr, List, Option, none, some, arith, length, ok, err,
  Option-cases,
}
use kv_rdma_poc.Message.{Message, pool_exhausted}
use kv_rdma_poc.Protocol.{CacheEntry}
use kv_rdma_poc.Memory.Bytes.{store}
use kv_rdma_poc.Memory.FreeList.{FreeList, insert}
use kv_rdma_poc.Memory.Allocator
use kv_rdma_poc.Memory.Allocator.{BumpAllocator, first_fit}
use kv_rdma_poc.Memory.Align.{align_up}
use kv_rdma_poc.Shared.Word.{add64}
use kv_rdma_poc.Memory.Allocator.Cases.{Served, allocate-Served, reused, bumped, exhausted}
use kv_rdma_poc.Memory.Allocator.Conserve.{max_len}
use kv_rdma_poc.Memory.Allocator.Sound.{CanServe, IsConserving, Served-IsConserving}
use kv_rdma_poc.Memory.Pool
use kv_rdma_poc.Memory.Pool.{MemoryPool, allocated}
use kv_rdma_poc.Memory.Pool.Access.{write_in_range}
use kv_rdma_poc.Server.EntryMap.{DashMap, Key}
use kv_rdma_poc.Server.{Host, store_entry, put_value}
use kv_rdma_poc.Server.Consistent.{IsRegistered}

-- The free list after the memory of a replaced or removed entry has been given back.
abbrev pub freed_list : Option CacheEntry → FreeList → FreeList
freed_list none m = m
freed_list (some e) m = insert e.offset (length e.value) m

abbrev pub freed : Option CacheEntry → BumpAllocator → BumpAllocator
freed o b = record b { free_list = freed_list o b.free_list }

-- The entry goes into the map, and the memory of the entry that it replaces is given back.
pub store_entry_lem :
    (D : DashMap) (key : Key) (entry : CacheEntry) (h : Host D)
    → store_entry D key entry h ≡ (
      ok tt,
      record h {
        server = record h.server {
          memory_pool = record h.memory_pool {
            allocator = freed (D.get key h.cache) h.memory_pool.allocator;
          };
          cache = (D.insert key entry h.cache).1;
        };
      },
    )
unfolding store_entry Pool.deallocate Allocator.deallocate
store_entry_lem D key entry h = elim (Option-cases (D.get key h.cache)) [
  | inl e ↦ rw (D.insert_old key entry h.cache, e, store_entry) refl
  | inr (old, e) ↦ rw (D.insert_old key entry h.cache, e, store_entry) refl
]

module _ (D : DashMap) (key : Key) (value : List ℕ) (ttl_seconds now : ℕ) (h : Host D) where
  abbrev pub entry_at : ℕ → CacheEntry
  entry_at offset = record {
    value = value;
    offset = offset;
    ttl_seconds = ttl_seconds;
    created_at = now;
  }

  -- The host after a `put` that was given the bytes at `offset`.
  unfoldable pub after_put : ℕ → BumpAllocator → Host D
  after_put offset b = record {
    server = record h.server {
      memory_pool = record h.memory_pool { allocator = freed (D.get key h.cache) b };
      cache = (D.insert key (entry_at offset) h.cache).1;
    };
    memory = store h.memory (h.memory_pool.buffer + offset) value;
  }

  put_value-refused :
      (b : BumpAllocator)
      → Allocator.allocate {E = Message} (length value) h.memory_pool.allocator ≡ (ok none, b)
      → b ≡ h.memory_pool.allocator
      → put_value D key value ttl_seconds now h ≡ (err pool_exhausted, h)
  unfolding put_value Pool.allocate
  put_value-refused b e eb = rw (e, allocated, eb) refl

  put_value-stored :
      (offset : ℕ) (b : BumpAllocator)
      → Allocator.allocate {E = Message} (length value) h.memory_pool.allocator
        ≡ (ok (some offset), b)
      → offset + length value ≤ h.memory_pool.buffer_len
      → h.memory_pool.buffer_len ≤ max_len
      → put_value D key value ttl_seconds now h ≡ (ok tt, after_put offset b)
  unfolding put_value Pool.allocate after_put
  put_value-stored offset b e fits small =
      rw (e, allocated)
        (rw
          (write_in_range (record h.memory_pool { allocator = b }) offset h.memory value fits small)
          (store_entry_lem D key (entry_at offset) (record h {
            server = record h.server { memory_pool = record h.memory_pool { allocator = b } };
            memory = store h.memory (h.memory_pool.buffer + offset) value;
          })))

  -- For a registered pool and a value of at most max_len bytes that its free blocks can serve, a
  -- put is refused where no free block is large enough and the bytes above the bump offset are too
  -- few, and then nothing has changed; otherwise the value is stored in the block that it was
  -- given.
  pub put_value_cases :
      IsRegistered h.memory_pool
      → length value ≤ max_len
      → CanServe h.memory_pool.allocator (length value)
      → ((put_value D key value ttl_seconds now h ≡ (err pool_exhausted, h))
          × (first_fit (length value) h.memory_pool.allocator.free_list ≡ none)
          × (h.memory_pool.allocator.capacity
              < add64
                  (align_up h.memory_pool.allocator.alignment h.memory_pool.allocator.offset)
                  (length value)))
        ⊎ ((offset : ℕ) × (b : BumpAllocator) × (put_value D key value ttl_seconds now h
              ≡ (ok tt, after_put offset b))
            × IsConserving (length value) h.memory_pool.allocator (some offset) b
            × Served (length value) h.memory_pool.allocator (some offset) b)
  put_value_cases r small fits = by_result (allocate-Served (length value) a r.well_formed.sorted)
    where
      a : BumpAllocator
      a = h.memory_pool.allocator

      by_result :
          (o : Option ℕ) × (b : BumpAllocator) × (Allocator.allocate {E = Message}
                (length value)
                h.memory_pool.allocator
              ≡ (ok o, b))
            × Served (length value) h.memory_pool.allocator o b
          → ((put_value D key value ttl_seconds now h ≡ (err pool_exhausted, h))
              × (first_fit (length value) h.memory_pool.allocator.free_list ≡ none)
              × (h.memory_pool.allocator.capacity
                  < add64
                      (align_up h.memory_pool.allocator.alignment h.memory_pool.allocator.offset)
                      (length value)))
            ⊎ ((offset : ℕ) × (b : BumpAllocator) × (put_value D key value ttl_seconds now h
                  ≡ (ok tt, after_put offset b))
                × IsConserving (length value) h.memory_pool.allocator (some offset) b
                × Served (length value) h.memory_pool.allocator (some offset) b)
      by_result (none, b, e, exhausted f full _ eb) = inl (put_value-refused b e eb, f, full)
      by_result (none, b, e, bumped _ eo _) = absurd (cc eo)
      by_result (none, b, e, reused _ _ _ _ eo _) = absurd (cc eo)
      by_result (some offset, b, e, v) = inr (
        offset,
        b,
        put_value-stored offset b e
            (omega (arith, c.in_range, c.well_formed.bounded, c.same_capacity, r.whole))
            (omega (arith, r.well_formed.small, r.whole)),
        c,
        v,
      )
        where
          c : IsConserving (length value) h.memory_pool.allocator (some offset) b
          c =
              Served-IsConserving (length value) h.memory_pool.allocator r.well_formed small
                (some offset) b fits v
