-- ===== src/Memory/Allocator/Empty.antt =====
-- A request for no bytes: `allocate` of src/memory.rs hands out the offset of the first free block
-- and leaves the block in the free list.
use kv_rdma_poc.Shared.{
  ℕ, ◌+◌, ◌≤◌, ◌<◌, ◌≡◌, refl, sym, subst, ◌-◌, ap, ◌∙◌, inl, inr, some, [], ◌∷◌, arith, ok,
}
use kv_rdma_poc.Memory.FreeList.{FreeList, insert, get, without}
use kv_rdma_poc.Memory.FreeList.Sorted.{IsAbove, IsSorted}
use kv_rdma_poc.Memory.Align.{IsAlignment}
use kv_rdma_poc.Memory.Allocator.{
  BumpAllocator, first_fit, reuse, give_back, allocate, deallocate, available,
}
use kv_rdma_poc.Memory.Allocator.Conserve.{max_len, IsWithin}
use kv_rdma_poc.Memory.Allocator.Granular.{IsUnits, IsGranular}
use kv_rdma_poc.Memory.Allocator.History.{Reach, IsTidy, Reach-IsTidy}
use kv_rdma_poc.Memory.Allocator.Total.{total, IsFilled, give_back_units, sum_values-total}
use kv_rdma_poc.Memory.Allocator.Account.{NonEmpty, IsAccounted, Reach-IsAccounted}

insert_first : (k v : ℕ) (m : FreeList) → IsAbove k m → insert k v m ≡ (k, v) ∷ m
unfolding insert
insert_first k v [] above = refl
insert_first k v ((j, w) ∷ m) above = ground (arith, above.0)

module _ {capacity alignment : ℕ} {a : BumpAllocator} {live : FreeList} (i : IsAlignment alignment)
    (small : capacity + alignment ≤ max_len) (r : Reach capacity alignment a live) (n : NonEmpty r)
    (offset size : ℕ) (rest : FreeList) (first : a.free_list ≡ (offset, size) ∷ rest) where
  t : IsTidy a live
  t = Reach-IsTidy i small r

  c : IsAccounted capacity a live
  c = Reach-IsAccounted i small r n

  sorted : IsAbove offset rest × IsSorted rest
  sorted = subst (λ m. IsSorted m) first t.sound.well_formed.sorted

  filled : (0 < size) × IsFilled rest
  filled = subst (λ m. IsFilled m) first c.free_filled

  units : IsUnits a.alignment (offset, size) × IsGranular a.alignment rest
  units = subst (λ m. IsGranular a.alignment m) first t.free_granular

  within : (offset + size ≤ a.offset) × IsWithin a.offset rest
  within = subst (λ m. IsWithin a.offset m) first t.sound.well_formed.within

  found : first_fit 0 a.free_list ≡ some offset
  unfolding first_fit
  found = rw first (ground arith)

  size_found : get offset a.free_list ≡ some size
  unfolding get
  size_found = rw first (ground arith)

  others : without offset a.free_list ≡ rest
  unfolding without
  others = rw first (ground arith)

  -- The remainder of an empty request is the whole block.
  kept : give_back a.alignment 0 offset size rest ≡ (offset, size) ∷ rest
  kept =
      elim (give_back_units a.alignment 0 offset size rest t.sound.well_formed.aligned
        (omega (arith, within.0, t.sound.well_formed.bounded, t.sound.well_formed.small))
        (omega arith) units.0.0 (0, omega arith) units.0.1) [
          | inl (none_left, _) ↦ absurd (omega (arith, filled.0))
          | inr (_, e) ↦ e ∙ same_block ∙ insert_first offset size rest sorted.0
        ]
    where
      at : offset + 0 ≡ offset
      at = omega arith

      whole : size - 0 ≡ size
      whole = omega arith

      same_block : insert (offset + 0) (size - 0) rest ≡ insert offset size rest
      same_block = ap (λ k. insert k (size - 0) rest) at ∙ ap (λ v. insert offset v rest) whole

  same : record a { free_list = (offset, size) ∷ rest } ≡ a
  same = ap (λ m. record a { free_list = m }) (sym first)

  granted : allocate {E = ⊥} 0 a ≡ (ok (some offset), a)
  unfolding allocate reuse
  granted = rw (found, allocate) (rw (size_found, reuse, others, kept, same) refl)

  returned : total (insert offset 0 a.free_list) + size ≡ total a.free_list
  unfolding insert total
  returned = rw first (ground arith)

  -- After a history as in available_exact, a request for no bytes is granted the offset of the
  -- first free block, which stays in the free list, and when it is returned the bytes of that
  -- block are neither available nor live.
  pub allocate_empty :
      (allocate {E = ⊥} 0 a ≡ (ok (some offset), a))
      × (available (deallocate offset 0 a) + total live + size ≡ capacity)
  unfolding available deallocate
  allocate_empty = (
    granted,
    omega (
      arith,
      returned,
      sum_values-total (insert offset 0 a.free_list) (
          omega (arith, returned, c.exact, t.sound.well_formed.bounded, t.sound.well_formed.small)),
      c.exact,
      c.same_capacity,
      t.sound.well_formed.bounded,
      t.sound.well_formed.small,
    ),
  )
