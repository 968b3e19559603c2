-- ===== src/Memory/Allocator/Conserve.antt =====
-- `allocate` takes bytes from one free block or from above the bump offset, and from nowhere else.
use kv_rdma_poc.Shared.{
  ℕ, ◌+◌, ◌-◌, ◌^◌, ◌≤◌, ◌<◌, ◌≡◌, ap, true, ◌⊎◌, inl, inr, arith, All, ltb, leb, Bool-cases,
}
use kv_rdma_poc.Shared.Word.{add64, sub64}
use kv_rdma_poc.Memory.FreeList.{FreeList, insert, cover, covers, cover-insert, All-insert}
use kv_rdma_poc.Memory.FreeList.Sorted.{IsSorted, insert-IsSorted}
use kv_rdma_poc.Memory.Align.{align_up, IsAlignment, Multiple, IsRounded, align_up-IsRounded}
use kv_rdma_poc.Memory.Allocator.{BumpAllocator, give_back}

-- A `Vec<u8>` holds at most `isize::MAX` bytes.
abbrev pub max_len : ℕ
max_len = 2 ^ 63 - 1

abbrev pub IsWithin : ℕ → FreeList → Type 0
IsWithin limit = All (λ (b : ℕ × ℕ). b.0 + b.1 ≤ limit)

pub record IsWellFormed (a : BumpAllocator) : Type 0 where
  pub aligned : IsAlignment a.alignment
  pub sorted : IsSorted a.free_list
  pub bounded : a.offset ≤ a.capacity
  pub small : a.capacity + a.alignment ≤ max_len
  pub within : IsWithin a.offset a.free_list

-- Cutting `size` bytes off a larger block leaves an aligned remainder inside the block.
abbrev pub CanSplit : ℕ → ℕ → ℕ × ℕ → Type 0
CanSplit alignment size b = size < b.1 → align_up alignment (b.0 + size) ≤ b.0 + b.1

module _ (a size offset block_size : ℕ) (free : FreeList) where
  -- The remainder is inserted as it stands in the block, or it is dropped.
  pub give_back_cases :
      IsAlignment a
      → offset + block_size + a ≤ max_len
      → size ≤ block_size
      → CanSplit a size (offset, block_size)
      → (give_back a size offset block_size free ≡ free)
        ⊎ ((r : ℕ) × (give_back a size offset block_size free
              ≡ insert r (offset + block_size - r) free)
            × (offset + size ≤ r)
            × (r ≤ offset + block_size)
            × Multiple a r)
  unfolding give_back
  give_back_cases i small fits split = elim (Bool-cases (ltb size block_size)) [
    | inr exact ↦ inl (rw exact)
    | inl larger ↦ remainder larger (ground arith)
  ]
    where
      r : ℕ
      r = align_up a (offset + size)

      rounded : IsRounded a (offset + size) (align_up a (offset + size))
      rounded = align_up-IsRounded a (offset + size) i (omega arith)

      sum : add64 offset size ≡ offset + size
      sum = omega arith

      remainder :
          ltb size block_size ≡ true
          → size < block_size
          → (give_back a size offset block_size free ≡ free)
            ⊎ ((r : ℕ) × (give_back a size offset block_size free
                  ≡ insert r (offset + block_size - r) free)
                × (offset + size ≤ r)
                × (r ≤ offset + block_size)
                × Multiple a r)
      remainder test l =
          elim (Bool-cases (leb a (sub64 block_size (sub64 (align_up a (offset + size)) offset)))) [
            | inl kept ↦ inr (
              r,
              rw (test, sum, kept)
                  (ap (λ (n : ℕ). insert r n free) (omega (arith, rounded, split l))),
              rounded.lower,
              split l,
              (rounded.quotient, rounded.multiple),
            )
            | inr dropped ↦ inl (rw (test, sum, dropped))
          ]

  -- No byte is in the request and in the remainder.
  pub cover-give_back :
      (x : ℕ)
      → IsAlignment a
      → offset + block_size + a ≤ max_len
      → size ≤ block_size
      → CanSplit a size (offset, block_size)
      → cover x (give_back a size offset block_size free) + covers x offset size
        ≤ cover x free + covers x offset block_size
  cover-give_back x i small fits split = elim (give_back_cases i small fits split) [
    | inl e ↦ rw e (ground arith)
    | inr (r, e, lo, hi, q) ↦ rw e (ground (arith, cover-insert x r (offset + block_size - r) free))
  ]

  pub All-give_back :
      (P : ℕ × ℕ → Type 0)
      → IsAlignment a
      → offset + block_size + a ≤ max_len
      → size ≤ block_size
      → CanSplit a size (offset, block_size)
      → ((r : ℕ)
          → offset + size ≤ r
          → r ≤ offset + block_size
          → Multiple a r
          → P (r, offset + block_size - r))
      → All P free
      → All P (give_back a size offset block_size free)
  All-give_back P i small fits split p h = elim (give_back_cases i small fits split) [
    | inl e ↦ rw e h
    | inr (r, e, lo, hi, q) ↦ rw e (All-insert P r (offset + block_size - r) free (p r lo hi q) h)
  ]

  pub give_back-IsSorted : IsSorted free → IsSorted (give_back a size offset block_size free)
  unfolding give_back
  give_back-IsSorted s = ground (
    arith,
    insert-IsSorted (align_up a (add64 offset size))
        (sub64 block_size (sub64 (align_up a (add64 offset size)) offset)) free s,
  )
