-- ===== src/Memory/Allocator/Cases.antt =====
-- What a call of `allocate` does, case by case.
use kv_rdma_poc.Shared.{
  ℕ, ◌≤◌, ◌<◌, ◌≡◌, refl, inl, inr, Option, none, some, [], ◌∷◌, arith, ltb, leb, Bool-cases,
  Option-cases, ok,
}
use kv_rdma_poc.Shared.Word.{add64}
use kv_rdma_poc.Memory.FreeList.{FreeList, get, without}
use kv_rdma_poc.Memory.FreeList.Sorted.{IsSorted, IsAbove-get}
use kv_rdma_poc.Memory.Align.{align_up}
use kv_rdma_poc.Memory.Allocator.{BumpAllocator, first_fit, give_back, reuse, bump, allocate}

-- The block that the loop finds is in the list, and is large enough.
pub get-first_fit :
    (size : ℕ) (m : FreeList) (offset : ℕ)
    → IsSorted m
    → first_fit size m ≡ some offset
    → (block_size : ℕ) × (get offset m ≡ some block_size) × (size ≤ block_size)
unfolding first_fit get
get-first_fit size [] offset s h = ground arith
get-first_fit size ((j, w) ∷ m) offset s h = elim (Bool-cases (leb size w)) [
  | inl fits ↦ (w, ground arith, ground arith)
  | inr small ↦ later (get-first_fit size m offset s.1 (ground arith))
]
  where
    later :
        (b : ℕ) × (get offset m ≡ some b) × (size ≤ b)
        → (b : ℕ) × (get offset ((j, w) ∷ m) ≡ some b) × (size ≤ b)
    later (b, e, l) = (b, ground (arith, IsAbove-get j offset b m s.0 e), l)

-- No block of the list is large enough.
pub first_fit-none :
    (size k v : ℕ) (m : FreeList) → first_fit size m ≡ none → get k m ≡ some v → v < size
unfolding first_fit get
first_fit-none size k v [] h e = ground arith
first_fit-none size k v ((j, w) ∷ m) h e = ground (arith, first_fit-none size k v m)

-- A request is served from a free block, from above the bump offset, or not at all.
pub data Served (size : ℕ) (a : BumpAllocator) (o : Option ℕ) (b : BumpAllocator) : Type 0 where
  reused :
      (offset block_size : ℕ)
      → get offset a.free_list ≡ some block_size
      → size ≤ block_size
      → o ≡ some offset
      → b ≡ record a {
        free_list = give_back a.alignment size offset block_size (without offset a.free_list);
      }
      → Served size a o b
  bumped :
      add64 (align_up a.alignment a.offset) size ≤ a.capacity
      → o ≡ some (align_up a.alignment a.offset)
      → b ≡ record a { offset = add64 (align_up a.alignment a.offset) size }
      → Served size a o b
  exhausted :
      first_fit size a.free_list ≡ none
      → a.capacity < add64 (align_up a.alignment a.offset) size
      → o ≡ none
      → b ≡ a
      → Served size a o b

bump-Served :
    {E : Type 0} (size : ℕ) (a : BumpAllocator)
    → first_fit size a.free_list ≡ none
    → (o : Option ℕ) × (b : BumpAllocator) × (bump {E = E} size a ≡ (ok o, b)) × Served size a o b
unfolding bump
bump-Served {E} size a none_fits =
    elim (Bool-cases (ltb a.capacity (add64 (align_up a.alignment a.offset) size))) [
      | inl full ↦ (none, a, rw full, exhausted none_fits (ground arith) refl refl)
      | inr room ↦ (
        some (align_up a.alignment a.offset),
        record a { offset = add64 (align_up a.alignment a.offset) size },
        rw room,
        bumped (ground arith) refl refl,
      )
    ]

-- The lookup behind `unwrap` always finds its block, so `allocate` never panics.
pub allocate-Served :
    {E : Type 0} (size : ℕ) (a : BumpAllocator)
    → IsSorted a.free_list
    → (o : Option ℕ) × (b : BumpAllocator) × (allocate {E = E} size a ≡ (ok o, b))
      × Served size a o b
unfolding allocate
allocate-Served {E} size a s = elim (Option-cases (first_fit size a.free_list)) [
  | inl e ↦ rw (e, allocate) (bump-Served size a e)
  | inr (offset, e) ↦
      rw (e, allocate) (from_list offset (get-first_fit size a.free_list offset s e))
]
  where
    from_list :
        (offset : ℕ)
        → (b : ℕ) × (get offset a.free_list ≡ some b) × (size ≤ b)
        → (o : Option ℕ) × (b : BumpAllocator) × (reuse {E = E} size offset a ≡ (ok o, b))
          × Served size a o b
    from_list offset (block_size, e, l) = (
      some offset,
      record a {
        free_list = give_back a.alignment size offset block_size (without offset a.free_list);
      },
      unfold reuse in rw (e, reuse),
      reused offset block_size e l refl refl,
    )

-- So what a call returned tells how it was served.
pub Served-of_allocate :
    {E : Type 0} (size : ℕ) (a : BumpAllocator) (o : Option ℕ) (b : BumpAllocator)
    → IsSorted a.free_list
    → allocate {E = E} size a ≡ (ok o, b)
    → Served size a o b
Served-of_allocate {E} size a o b s e = same (allocate-Served size a s)
  where
    same :
        (p : Option ℕ) × (c : BumpAllocator) × (allocate {E = E} size a ≡ (ok p, c))
          × Served size a p c
        → Served size a o b
    same (p, c, f, v) = rw (eo, eb) v
      where
        eo : o ≡ p
        eo = cc

        eb : b ≡ c
        eb = cc
