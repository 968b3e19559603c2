-- ===== src/Memory/Allocator/Underflow.antt =====
-- A free block with a partial last page. What is left of it is computed by a subtraction that can
-- go below zero, and the wrapped result passes the test that follows.
use kv_rdma_poc.Shared.{ℕ, ◌+◌, ◌-◌, ◌≤◌, ◌<◌, ◌≡◌, refl, some, arith, leb, ltb, ok, true}
use kv_rdma_poc.Shared.Word.{word, add64, sub64}
use kv_rdma_poc.Memory.FreeList.{insert, get, without, get-insert_self, All-get}
use kv_rdma_poc.Memory.Align.{align_up, IsRounded, align_up-IsRounded}
use kv_rdma_poc.Memory.Allocator.{BumpAllocator, first_fit, give_back, reuse, allocate}
use kv_rdma_poc.Memory.Allocator.Conserve.{IsWellFormed}

-- The free block that the wrapped subtraction makes up.
abbrev pub phantom : ℕ → ℕ → ℕ → ℕ
phantom offset block_size r = word - (r - (offset + block_size))

-- In a well-formed allocator, a request that is served from a larger free block whose end lies
-- before the next aligned offset puts a block at that offset into the free list that is larger
-- than the pool.
pub allocate_underflow :
    {E : Type 0} (size offset block_size : ℕ) (a : BumpAllocator)
    → IsWellFormed a
    → first_fit size a.free_list ≡ some offset
    → get offset a.free_list ≡ some block_size
    → size < block_size
    → offset + block_size < align_up a.alignment (offset + size)
    → let r = align_up a.alignment (offset + size) in
      (b : BumpAllocator) × (allocate {E = E} size a ≡ (ok (some offset), b))
      × (get r b.free_list ≡ some (phantom offset block_size r))
      × (b.capacity < phantom offset block_size r)
unfolding allocate reuse give_back
allocate_underflow {E} size offset block_size a w ef eg l past = (
  record a { free_list = insert r (phantom offset block_size r) (without offset a.free_list) },
  rw (ef, allocate) (rw (eg, reuse) (rw (larger, sum, rest, kept) refl)),
  get-insert_self r (phantom offset block_size r) (without offset a.free_list),
  omega (arith, rounded, block, w.bounded, w.small),
)
  where
    r : ℕ
    r = align_up a.alignment (offset + size)

    block : offset + block_size ≤ a.offset
    block = All-get (λ (b : ℕ × ℕ). b.0 + b.1 ≤ a.offset) offset block_size a.free_list w.within eg

    rounded : IsRounded a.alignment (offset + size) (align_up a.alignment (offset + size))
    rounded =
        align_up-IsRounded a.alignment (offset + size) w.aligned
          (omega (arith, block, w.bounded, w.small))

    larger : ltb size block_size ≡ true
    larger = ground arith

    sum : add64 offset size ≡ offset + size
    sum = omega (arith, block, w.bounded, w.small)

    rest :
        sub64 block_size (sub64 (align_up a.alignment (offset + size)) offset)
        ≡ phantom offset block_size (align_up a.alignment (offset + size))
    rest = omega (arith, rounded, block, w.bounded, w.small)

    kept : leb a.alignment (phantom offset block_size (align_up a.alignment (offset + size))) ≡ true
    kept = ground (arith, rounded, block, w.bounded, w.small)
