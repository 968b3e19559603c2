-- ===== src/Memory/Pool/Access.antt =====
-- Writes and reads of a pool.
use kv_rdma_poc.Shared.{
  ℕ, ◌+◌, ◌≤◌, ◌≡◌, refl, ap, sym, ◌∙◌, ◌⊎◌, List, arith, length, ok, ltb, false,
}
use kv_rdma_poc.Shared.Word.{add64}
use kv_rdma_poc.Memory.Bytes.{Memory, load, store, load-store_self, load-store_ne}
use kv_rdma_poc.Memory.Allocator.Conserve.{max_len}
use kv_rdma_poc.Memory.Pool.{MemoryPool, write, read}

module _ (pool : MemoryPool) (offset : ℕ) (memory : Memory) where
  pub write_in_range :
      (bytes : List ℕ)
      → offset + length bytes ≤ pool.buffer_len
      → pool.buffer_len ≤ max_len
      → write pool offset bytes memory ≡ (ok tt, store memory (pool.buffer + offset) bytes)
  unfolding write
  write_in_range bytes h l = rw (sum, fits, ordered) refl
    where
      sum : add64 offset (length bytes) ≡ offset + length bytes
      sum = omega arith

      fits : ltb pool.buffer_len (offset + length bytes) ≡ false
      fits = ground arith

      ordered : ltb (offset + length bytes) offset ≡ false
      ordered = ground arith

  pub read_in_range :
      (len : ℕ)
      → offset + len ≤ pool.buffer_len
      → pool.buffer_len ≤ max_len
      → read pool offset len memory ≡ ok (load memory (pool.buffer + offset) len)
  unfolding read
  read_in_range len h l = rw (sum, fits, ordered) refl
    where
      sum : add64 offset len ≡ offset + len
      sum = omega arith

      fits : ltb pool.buffer_len (offset + len) ≡ false
      fits = ground arith

      ordered : ltb (offset + len) offset ≡ false
      ordered = ground arith

-- In a pool of at most max_len bytes, bytes that fit at an offset are read back after the write,
-- and a range of the pool that lies beside them reads as before.
pub read-write :
    (pool : MemoryPool) (offset : ℕ) (memory : Memory) (bytes : List ℕ) (o n : ℕ)
    → pool.buffer_len ≤ max_len
    → offset + length bytes ≤ pool.buffer_len
    → (o + n ≤ offset) ⊎ (offset + length bytes ≤ o)
    → o + n ≤ pool.buffer_len
    → let m = (write pool offset bytes memory).1 in
      (read pool offset (length bytes) m ≡ ok bytes) × (read pool o n m ≡ read pool o n memory)
read-write pool offset memory bytes o n l h apart fits =
    rw (write_in_range pool offset memory bytes h l) (
      read_in_range pool offset stored (length bytes) h l
          ∙ ap ok (load-store_self memory (pool.buffer + offset) bytes),
      read_in_range pool o stored n fits l
          ∙ ap ok
              (load-store_ne memory (pool.buffer + o) n (pool.buffer + offset) bytes (ground arith))
          ∙ sym (read_in_range pool o memory n fits l),
    )
  where
    stored : Memory
    stored = store memory (pool.buffer + offset) bytes
