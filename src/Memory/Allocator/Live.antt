-- ===== src/Memory/Allocator/Live.antt =====
-- The allocator beside the list of the blocks that are allocated and not yet freed.
use kv_rdma_poc.Shared.{ℕ, ◌+◌, ◌≤◌, ◌≡◌, refl, Option, none, some, [], ◌∷◌, arith, ok}
use kv_rdma_poc.Memory.FreeList.{FreeList, cover, cover-insert, All-insert}
use kv_rdma_poc.Memory.FreeList.Sorted.{insert-IsSorted}
use kv_rdma_poc.Memory.Align.{IsAlignment}
use kv_rdma_poc.Memory.Allocator.{BumpAllocator, new, allocate, deallocate}
use kv_rdma_poc.Memory.Allocator.Cases.{Served, allocate-Served}
use kv_rdma_poc.Memory.Allocator.Conserve.{max_len, IsWellFormed}
use kv_rdma_poc.Memory.Allocator.Sound.{
  inside, taken, CanServe, IsWithinOption, IsConserving, Served-IsConserving,
}

-- The free blocks and the live ones, `live`, share no byte and lie below the bump offset.
pub record IsSound (a : BumpAllocator) (live : FreeList) : Type 0 where
  pub well_formed : IsWellFormed a
  pub exclusive : (x : ℕ) → cover x a.free_list + cover x live ≤ inside x a.offset

-- The blocks that are live after a call of `allocate`.
abbrev pub grant : Option ℕ → ℕ → FreeList → FreeList
grant none size live = live
grant (some offset) size live = (offset, size) ∷ live

pub cover-grant :
    (x : ℕ) (o : Option ℕ) (size : ℕ) (live : FreeList)
    → cover x (grant o size live) ≡ taken x o size + cover x live
unfolding cover
cover-grant x none size live = omega arith
cover-grant x (some offset) size live = refl

pub new-IsSound :
    (capacity alignment : ℕ)
    → IsAlignment alignment
    → capacity + alignment ≤ max_len
    → IsSound (new capacity alignment) []
unfolding new cover
new-IsSound capacity alignment i small = record {
  well_formed = record {
    aligned = i;
    sorted = tt;
    bounded = omega arith;
    small = small;
    within = tt;
  };
  exclusive = λ x. omega arith;
}

-- From a sound allocator, a request of at most max_len bytes that its free blocks can serve does
-- not panic; it is served as one of the cases of Served, the block that it returns lies inside the
-- capacity, and with that block among the live ones the allocator is sound again.
pub allocate-IsSound :
    {E : Type 0} (size : ℕ) (a : BumpAllocator) (live : FreeList)
    → IsSound a live
    → size ≤ max_len
    → CanServe a size
    → (o : Option ℕ) × (b : BumpAllocator) × (allocate {E = E} size a ≡ (ok o, b))
      × IsSound b (grant o size live)
      × Served size a o b
      × IsWithinOption b.capacity o size
allocate-IsSound {E} size a live s len fits = result (allocate-Served size a s.well_formed.sorted)
  where
    result :
        (o : Option ℕ) × (b : BumpAllocator) × (allocate {E = E} size a ≡ (ok o, b))
          × Served size a o b
        → (o : Option ℕ) × (b : BumpAllocator) × (allocate {E = E} size a ≡ (ok o, b))
          × IsSound b (grant o size live)
          × Served size a o b
          × IsWithinOption b.capacity o size
    result (o, b, e, v) = (
      o,
      b,
      e,
      record {
        well_formed = c.well_formed;
        exclusive = λ x. omega (arith, c.conserves x, s.exclusive x, cover-grant x o size live);
      },
      v,
      bound o c.in_range,
    )
      where
        c : IsConserving size a o b
        c = Served-IsConserving size a s.well_formed len o b fits v

        bound : (o : Option ℕ) → IsWithinOption b.offset o size → IsWithinOption b.capacity o size
        bound none h = tt
        bound (some offset) h = omega (arith, c.well_formed.bounded)

-- Freeing a live block.
pub deallocate-IsSound :
    (offset size : ℕ) (a : BumpAllocator) (live : FreeList)
    → IsSound a ((offset, size) ∷ live)
    → offset + size ≤ a.offset
    → IsSound (deallocate offset size a) live
unfolding deallocate cover
deallocate-IsSound offset size a live s h = record {
  well_formed = record {
    aligned = s.well_formed.aligned;
    sorted = insert-IsSorted offset size a.free_list s.well_formed.sorted;
    bounded = s.well_formed.bounded;
    small = s.well_formed.small;
    within =
        All-insert (λ (b : ℕ × ℕ). b.0 + b.1 ≤ a.offset) offset size a.free_list h
          s.well_formed.within;
  };
  exclusive = λ x. omega (arith, s.exclusive x, cover-insert x offset size a.free_list);
}
