-- ===== src/Memory/Allocator/Total.antt =====
-- The bytes of the free blocks of src/memory.rs, added up.
use kv_rdma_poc.Shared.{
  ℕ, zero, suc, ◌+◌, ◌-◌, ◌≤◌, ◌<◌, ◌≡◌, refl, ◌⊎◌, inl, inr, none, some, [], ◌∷◌, ◌++◌, arith, All,
  true, ltb, leb, Bool-cases,
}
use kv_rdma_poc.Shared.Word.{word, add64, sub64}
use kv_rdma_poc.Memory.FreeList.{FreeList, insert, get, without, cover}
use kv_rdma_poc.Memory.Align.{align_up, IsAlignment, Multiple, align_up-Multiple}
use kv_rdma_poc.Memory.Allocator.{give_back, sum_values}
use kv_rdma_poc.Memory.Allocator.Conserve.{max_len}
use kv_rdma_poc.Memory.Allocator.Granular.{add-Multiple, sub-Multiple}
use kv_rdma_poc.Memory.Allocator.History.{}

-- The bytes of the blocks, without the wrap-around of `sum_values`.
unfoldable pub total : FreeList → ℕ
total [] = 0
total ((offset, size) ∷ m) = size + total m

-- No block is empty.
abbrev pub IsFilled : FreeList → Type 0
IsFilled = All (λ (b : ℕ × ℕ). 0 < b.1)

pub sum_values-total : (m : FreeList) → total m < word → sum_values m ≡ total m
unfolding sum_values total
sum_values-total [] l = refl
sum_values-total ((o, s) ∷ m) l = omega (arith, sum_values-total m (omega arith))

pub total-insert : (k v : ℕ) (m : FreeList) → get k m ≡ none → total (insert k v m) ≡ total m + v
unfolding total insert get
total-insert k v [] e = omega arith
total-insert k v ((j, w) ∷ m) e = ground (arith, total-insert k v m)

pub total-without : (k v : ℕ) (m : FreeList) → get k m ≡ some v → total (without k m) + v ≡ total m
unfolding total without get
total-without k v [] e = ground arith
total-without k v ((j, w) ∷ m) e = ground (arith, total-without k v m)

pub total-middle :
    (o s : ℕ) (before after : FreeList)
    → total (before ++ ((o, s) ∷ after)) ≡ s + total (before ++ after)
unfolding total
total-middle o s [] after = refl
total-middle o s ((p, t) ∷ before) after = omega (arith, total-middle o s before after)

-- An offset whose byte is in no block is the offset of none.
pub get-uncovered : (k : ℕ) (m : FreeList) → IsFilled m → cover k m ≡ 0 → get k m ≡ none
unfolding get cover
get-uncovered k [] f e = refl
get-uncovered k ((j, w) ∷ m) f e = ground (arith, get-uncovered k m f.1)

-- What is left of a block of whole units is kept to the last byte.
pub give_back_units :
    (a size offset block_size : ℕ) (free : FreeList)
    → IsAlignment a
    → offset + block_size + a ≤ max_len
    → size ≤ block_size
    → Multiple a offset
    → Multiple a size
    → Multiple a block_size
    → ((size ≡ block_size) × (give_back a size offset block_size free ≡ free))
      ⊎ ((size < block_size)
          × (give_back a size offset block_size free
              ≡ insert (offset + size) (block_size - size) free))
unfolding give_back
give_back_units a size offset block_size free i near l mo ms mb =
    elim (Bool-cases (ltb size block_size)) [
      | inr exact ↦ inl (ground arith, rw exact)
      | inl larger ↦ inr (ground arith, rw (larger, sum, aligned, rest, keeps (ground arith)))
    ]
  where
    sum : add64 offset size ≡ offset + size
    sum = omega arith

    aligned : align_up a (offset + size) ≡ offset + size
    aligned = align_up-Multiple a (offset + size) i (omega arith) (add-Multiple a offset size mo ms)

    rest : sub64 block_size (sub64 (offset + size) offset) ≡ block_size - size
    rest = omega arith

    multiple_le : (n : ℕ) → Multiple a n → 0 < n → a ≤ n
    multiple_le n (zero, e) h = omega arith
    multiple_le n (suc q, e) h = omega arith

    keeps : size < block_size → leb a (block_size - size) ≡ true
    keeps h = ground (arith, fits)
      where
        fits : a ≤ block_size - size
        fits = multiple_le (block_size - size) (sub-Multiple a block_size size mb ms) (omega arith)
