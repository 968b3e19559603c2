-- ===== src/Memory/FreeList.antt =====
-- The free list of src/memory.rs, a `BTreeMap<usize, usize>` from a block's offset to its size:
-- the entries in the order of the keys, and the operations that the allocator calls.
pub mod Sorted
use kv_rdma_poc.Shared.{
  ℕ, ◌+◌, ◌≤◌, ◌≡◌, refl, ◌&&◌, List, [], ◌∷◌, Option, none, some, arith, All, ltb, leb, ◌==◌,
  if◌then◌else◌,
}

abbrev pub FreeList : Type 0
FreeList = List (ℕ × ℕ)

unfoldable pub insert : ℕ → ℕ → FreeList → FreeList
insert k v [] = (k, v) ∷ []
insert k v ((j, w) ∷ m) =
    let rest = insert k v m in
    if ltb k j then (k, v) ∷ (j, w) ∷ m else if k == j then (k, v) ∷ m else (j, w) ∷ rest

unfoldable pub get : ℕ → FreeList → Option ℕ
get k [] = none
get k ((j, w) ∷ m) = if k == j then some w else get k m

-- What `remove` leaves in the map.
unfoldable pub without : ℕ → FreeList → FreeList
without k [] = []
without k ((j, w) ∷ m) = if k == j then m else (j, w) ∷ without k m

-- The number of times that the byte at `x` lies in the block at `offset`: 1 or 0.
abbrev pub covers : ℕ → ℕ → ℕ → ℕ
covers x offset size = if leb offset x && ltb x (offset + size) then 1 else 0

-- The number of free blocks that hold the byte at `x`.
unfoldable pub cover : ℕ → FreeList → ℕ
cover x [] = 0
cover x ((j, w) ∷ m) = covers x j w + cover x m

module _ (x : ℕ) where
  pub cover-nil : cover x [] ≡ 0
  unfolding cover
  cover-nil = refl

  -- A new block may replace one with its offset, so some bytes may leave the list.
  pub cover-insert : (k v : ℕ) (m : FreeList) → cover x (insert k v m) ≤ cover x m + covers x k v
  unfolding cover insert
  cover-insert k v [] = ground arith
  cover-insert k v ((j, w) ∷ m) = ground (arith, cover-insert k v m)

  pub cover-without :
      (k v : ℕ) (m : FreeList) → get k m ≡ some v → cover x (without k m) + covers x k v ≡ cover x m
  unfolding cover get without
  cover-without k v [] h = ground arith
  cover-without k v ((j, w) ∷ m) h = ground (arith, cover-without k v m)

module _ (P : ℕ × ℕ → Type 0) where
  pub All-insert : (k v : ℕ) (m : FreeList) → P (k, v) → All P m → All P (insert k v m)
  unfolding insert
  All-insert k v [] p h = (p, tt)
  All-insert k v ((j, w) ∷ m) p h = ground (arith, All-insert k v m p h.1)

  pub All-without : (k : ℕ) (m : FreeList) → All P m → All P (without k m)
  unfolding without
  All-without k [] h = tt
  All-without k ((j, w) ∷ m) h = ground (arith, All-without k m h.1)

  pub All-get : (k v : ℕ) (m : FreeList) → All P m → get k m ≡ some v → P (k, v)
  unfolding get
  All-get k v [] h e = ground arith
  All-get k v ((j, w) ∷ m) h e = ground (arith, All-get k v m h.1)

pub get-insert_self : (k v : ℕ) (m : FreeList) → get k (insert k v m) ≡ some v
unfolding get insert
get-insert_self k v [] = ground arith
get-insert_self k v ((j, w) ∷ m) = ground (arith, get-insert_self k v m)
