-- ===== src/Memory/Allocator.antt =====
-- `BumpAllocator` of src/memory.rs. `allocate` and `deallocate` take `&mut self`, so they are
-- actions on the allocator. The loop over the free list is `first_fit`, and the two ways to serve a
-- request are `reuse` and `bump`. Arithmetic wraps as in a release build.
pub mod Cases
pub mod Conserve
pub mod Sound
pub mod Live
pub mod Granular
pub mod History
pub mod Total
pub mod Account
pub mod Empty
pub mod Underflow
use kv_rdma_poc.Shared.{
  ℕ, Option, none, some, [], ◌∷◌, ltb, leb, if◌then◌else◌, Outcome, ok, panic, Exec,
}
use kv_rdma_poc.Shared.Word.{add64, sub64}
use kv_rdma_poc.Memory.FreeList.{FreeList, insert, get, without}
use kv_rdma_poc.Memory.Align.{align_up}

pub record BumpAllocator : Type 0 where
  pub offset : ℕ
  pub capacity : ℕ
  pub alignment : ℕ
  pub free_list : FreeList

unfoldable pub new : ℕ → ℕ → BumpAllocator
new capacity alignment = record {
  offset = 0;
  capacity = capacity;
  alignment = alignment;
  free_list = [];
}

-- The loop ends at the first block that is large enough.
unfoldable pub first_fit : ℕ → FreeList → Option ℕ
first_fit size [] = none
first_fit size ((offset, block_size) ∷ m) =
    if leb size block_size then some offset else first_fit size m

-- What is left of a larger block goes back into the list.
unfoldable pub give_back : ℕ → ℕ → ℕ → ℕ → FreeList → FreeList
give_back alignment size offset block_size free =
    if ltb size block_size
    then (let aligned_remainder = align_up alignment (add64 offset size) in
        let remainder_size = sub64 block_size (sub64 aligned_remainder offset) in
        if leb alignment remainder_size then insert aligned_remainder remainder_size free else free)
    else free

-- `unwrap` panics where the block is not in the list.
unfoldable pub reuse : {E : Type 0} → ℕ → ℕ → Exec BumpAllocator E (Option ℕ)
reuse size offset a = elim (get offset a.free_list) [
  | none ↦ (panic, a)
  | some block_size ↦ (
    ok (some offset),
    record a {
      free_list = give_back a.alignment size offset block_size (without offset a.free_list);
    },
  )
]

unfoldable pub bump : {E : Type 0} → ℕ → Exec BumpAllocator E (Option ℕ)
bump size a =
    let aligned_offset = align_up a.alignment a.offset in
    if ltb a.capacity (add64 aligned_offset size)
    then (ok none, a)
    else (ok (some aligned_offset), record a { offset = add64 aligned_offset size })

unfoldable pub allocate : {E : Type 0} → ℕ → Exec BumpAllocator E (Option ℕ)
allocate size a = elim (first_fit size a.free_list) [
  | none ↦ bump size a
  | some offset ↦ reuse size offset a
]

unfoldable pub deallocate : ℕ → ℕ → BumpAllocator → BumpAllocator
deallocate offset size a = record a { free_list = insert offset size a.free_list }

unfoldable pub used : BumpAllocator → ℕ
used a = a.offset

-- `values().sum::<usize>()`
unfoldable pub sum_values : FreeList → ℕ
sum_values [] = 0
sum_values ((offset, size) ∷ m) = add64 size (sum_values m)

unfoldable pub available : BumpAllocator → ℕ
available a = add64 (sub64 a.capacity a.offset) (sum_values a.free_list)
