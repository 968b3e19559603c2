-- ===== src/Server/Consistent.antt =====
-- The invariant of the server: what the map says about the pool.
use kv_rdma_poc.Shared.{ℕ, ◌+◌, ◌≤◌, ◌<◌, ◌≡◌, ◌≢◌, some, length}
use kv_rdma_poc.Shared.Word.{word}
use kv_rdma_poc.Protocol.{CacheEntry}
use kv_rdma_poc.Memory.Bytes.{load}
use kv_rdma_poc.Memory.FreeList.{cover, covers}
use kv_rdma_poc.Memory.Allocator.Conserve.{IsWellFormed}
use kv_rdma_poc.Memory.Allocator.Sound.{inside}
use kv_rdma_poc.Memory.Pool.{MemoryPool}
use kv_rdma_poc.Server.EntryMap.{DashMap, Key}
use kv_rdma_poc.Server.{Host}

-- Whether the entry holds the byte at `x` of the pool: 1 or 0.
abbrev pub holds : ℕ → CacheEntry → ℕ
holds x e = covers x e.offset (length e.value)

-- The pool is the registered buffer, and the allocator hands out all of it.
pub record IsRegistered (pool : MemoryPool) : Type 0 where
  pub well_formed : IsWellFormed pool.allocator
  pub whole : pool.allocator.capacity ≡ pool.buffer_len
  pub base : pool.handle.ptr ≡ pool.buffer
  pub not_null : 0 < pool.buffer
  pub addressed : pool.buffer + pool.buffer_len < word

module _ {D : DashMap} where
  pub record IsConsistent (h : Host D) : Type 0 where
    pub registered : IsRegistered h.memory_pool
    -- free bytes lie below the bump offset, once each
    pub free :
        (x : ℕ)
        → cover x h.memory_pool.allocator.free_list ≤ inside x h.memory_pool.allocator.offset
    -- a cached value stands in the pool, at its offset, below the bump offset
    pub bytes :
        (k : Key) (e : CacheEntry)
        → D.get k h.cache ≡ some e
        → load h.memory (h.memory_pool.buffer + e.offset) (length e.value) ≡ e.value
    pub bound :
        (k : Key) (e : CacheEntry)
        → D.get k h.cache ≡ some e
        → e.offset + length e.value ≤ h.memory_pool.allocator.offset
    -- its bytes are not free
    pub owned :
        (k : Key) (e : CacheEntry) (x : ℕ)
        → D.get k h.cache ≡ some e
        → holds x e + cover x h.memory_pool.allocator.free_list
          ≤ inside x h.memory_pool.allocator.offset
    -- and no other key's
    pub apart :
        (k j : Key) (e f : CacheEntry) (x : ℕ)
        → k ≢ j
        → D.get k h.cache ≡ some e
        → D.get j h.cache ≡ some f
        → holds x e + holds x f + cover x h.memory_pool.allocator.free_list
          ≤ inside x h.memory_pool.allocator.offset
