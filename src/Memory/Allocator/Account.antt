-- ===== src/Memory/Allocator/Account.antt =====
-- `available` of src/memory.rs over histories of requests that are not empty.
use kv_rdma_poc.Shared.{ℕ, ◌+◌, ◌-◌, ◌≤◌, ◌<◌, ◌≡◌, refl, inl, inr, Option, none, ◌∷◌, ◌++◌, arith}
use kv_rdma_poc.Shared.Word.{add64}
use kv_rdma_poc.Memory.FreeList.{
  FreeList, get, without, cover, cover-without, All-insert, All-without, All-get,
}
use kv_rdma_poc.Memory.Align.{align_up, IsAlignment, Multiple, align_up-Multiple}
use kv_rdma_poc.Memory.Allocator.{BumpAllocator, new, give_back, deallocate, available}
use kv_rdma_poc.Memory.Allocator.Cases.{Served, reused, bumped, exhausted, Served-of_allocate}
use kv_rdma_poc.Memory.Allocator.Conserve.{max_len}
use kv_rdma_poc.Memory.Allocator.Live.{grant}
use kv_rdma_poc.Memory.Allocator.Granular.{IsUnits, add-Multiple}
use kv_rdma_poc.Memory.Allocator.History.{
  allocates, frees, Reach, start, next, IsTidy, Reach-IsTidy, cover-middle, All-middle,
}
use kv_rdma_poc.Memory.Allocator.Total.{
  total, IsFilled, sum_values-total, total-insert, total-without, total-middle, get-uncovered,
  give_back_units,
}

-- The books of the allocator: every byte below the bump offset is free or live.
pub record IsAccounted (capacity : ℕ) (a : BumpAllocator) (live : FreeList) : Type 0 where
  pub same_capacity : a.capacity ≡ capacity
  pub exact : total a.free_list + total live ≡ a.offset
  pub offset_units : Multiple a.alignment a.offset
  pub free_filled : IsFilled a.free_list
  pub live_filled : IsFilled live

frees-IsAccounted :
    (capacity offset size : ℕ) (before after : FreeList) (a : BumpAllocator)
    → IsTidy a (before ++ ((offset, size) ∷ after))
    → IsAccounted capacity a (before ++ ((offset, size) ∷ after))
    → IsAccounted capacity (deallocate offset size a) (before ++ after)
unfolding deallocate cover
frees-IsAccounted capacity offset size before after a t c = record {
  same_capacity = c.same_capacity;
  exact = omega (
    arith,
    total-insert offset size a.free_list fresh,
    total-middle offset size before after,
    c.exact,
  );
  offset_units = c.offset_units;
  free_filled = All-insert (λ (b : ℕ × ℕ). 0 < b.1) offset size a.free_list filled.0 c.free_filled;
  live_filled = filled.1;
}
  where
    filled : (0 < size) × IsFilled (before ++ after)
    filled = All-middle offset size (λ (b : ℕ × ℕ). 0 < b.1) before after c.live_filled

    fresh : get offset a.free_list ≡ none
    fresh = get-uncovered offset a.free_list c.free_filled (
        ground
          (arith, t.sound.exclusive offset, cover-middle offset size offset before after, filled.0))

module _ (capacity size : ℕ) (a : BumpAllocator) (live : FreeList) (t : IsTidy a live)
    (c : IsAccounted capacity a live) (unit : Multiple a.alignment size) (filled : 0 < size)
    (len : size ≤ max_len) where
  allocates-IsAccounted :
      (o : Option ℕ) (b : BumpAllocator)
      → Served size a o b
      → IsAccounted capacity b (grant o size live)
  allocates-IsAccounted o b (exhausted _ _ eo eb) = rw (eo, eb) c
  allocates-IsAccounted o b (bumped h eo eb) =
      rw (eo, eb, aligned, sum)
        (record {
          same_capacity = c.same_capacity;
          exact = unfold total in omega (arith, c.exact);
          offset_units = add-Multiple a.alignment a.offset size c.offset_units unit;
          free_filled = c.free_filled;
          live_filled = (filled, c.live_filled);
        })
    where
      aligned : align_up a.alignment a.offset ≡ a.offset
      aligned =
          align_up-Multiple a.alignment a.offset t.sound.well_formed.aligned
            (omega (arith, t.sound.well_formed.bounded, t.sound.well_formed.small)) c.offset_units

      sum : add64 a.offset size ≡ a.offset + size
      sum = omega (arith, len, t.sound.well_formed.bounded, t.sound.well_formed.small)
  allocates-IsAccounted o b (reused offset block_size eg l eo eb) =
      rw (eo, eb)
        (record {
          same_capacity = c.same_capacity;
          exact = unfold total in omega (arith, c.exact, left);
          offset_units = c.offset_units;
          free_filled = left.1;
          live_filled = (filled, c.live_filled);
        })
    where
      free : FreeList
      free = without offset a.free_list

      block : offset + block_size ≤ a.offset
      block =
          All-get (λ (b : ℕ × ℕ). b.0 + b.1 ≤ a.offset) offset block_size a.free_list
            t.sound.well_formed.within eg

      units : Multiple a.alignment offset × Multiple a.alignment block_size
      units = All-get (IsUnits a.alignment) offset block_size a.free_list t.free_granular eg

      rest_filled : IsFilled free
      rest_filled = All-without (λ (b : ℕ × ℕ). 0 < b.1) offset a.free_list c.free_filled

      fresh : size < block_size → get (offset + size) free ≡ none
      fresh h = get-uncovered (offset + size) free rest_filled (
          ground (
            arith,
            h,
            cover-without (offset + size) offset block_size a.free_list eg,
            t.sound.exclusive (offset + size),
          ))

      left :
          (total (give_back a.alignment size offset block_size free) + size ≡ total a.free_list)
          × IsFilled (give_back a.alignment size offset block_size free)
      left =
          elim (give_back_units a.alignment size offset block_size free t.sound.well_formed.aligned
            (omega (arith, block, t.sound.well_formed.bounded, t.sound.well_formed.small)) l units.0
            unit units.1) [
              | inl (exact, same) ↦
                  rw same
                    (omega (arith, total-without offset block_size a.free_list eg), rest_filled)
              | inr (h, cut) ↦ rw cut (
                omega (
                  arith,
                  total-insert (offset + size) (block_size - size) free (fresh h),
                  total-without offset block_size a.free_list eg,
                ),
                All-insert (λ (b : ℕ × ℕ). 0 < b.1) (offset + size) (block_size - size) free
                    (omega arith) rest_filled,
              )
            ]

-- No request of the history was for an empty block.
abbrev pub NonEmpty :
    {capacity alignment : ℕ} {a : BumpAllocator} {live : FreeList}
    → Reach capacity alignment a live
    → Type 0
NonEmpty (start ea el) = Unit
NonEmpty (next r (allocates size o len unit e el)) = NonEmpty r × (0 < size)
NonEmpty (next r (frees offset size before after e eb el)) = NonEmpty r

pub Reach-IsAccounted :
    {capacity alignment : ℕ} {a : BumpAllocator} {live : FreeList}
    → IsAlignment alignment
    → capacity + alignment ≤ max_len
    → (r : Reach capacity alignment a live) → NonEmpty r
    → IsAccounted capacity a live
unfolding new total
Reach-IsAccounted {capacity} {alignment} i small (start ea el) n =
    rw (ea, el)
      (record {
        same_capacity = refl;
        exact = refl;
        offset_units = (0, omega arith);
        free_filled = tt;
        live_filled = tt;
      })
Reach-IsAccounted {capacity} i small (next {a} {b} {live} r (allocates size o len unit e el))
      (n, filled) =
    rw el (
      allocates-IsAccounted capacity size a live (Reach-IsTidy i small r)
        (Reach-IsAccounted i small r n) unit filled len o b
        (Served-of_allocate size a o b (Reach-IsTidy i small r).sound.well_formed.sorted e))
Reach-IsAccounted {capacity} i small (next {a} {b} r (frees offset size before after e eb el)) n =
    rw (eb, el)
      (frees-IsAccounted capacity offset size before after a (rw e at (Reach-IsTidy i small r))
        (rw e at (Reach-IsAccounted i small r n)))

-- After any history of requests of at most max_len bytes for whole units of the alignment, none of
-- them empty, and of returns of live blocks, from a new allocator whose alignment is a power of
-- two and whose capacity and alignment are at most max_len together, the bytes that available
-- reports and the bytes of the live blocks are together the capacity.
pub available_exact :
    {capacity alignment : ℕ} {a : BumpAllocator} {live : FreeList}
    → IsAlignment alignment
    → capacity + alignment ≤ max_len
    → (r : Reach capacity alignment a live) → NonEmpty r
    → available a + total live ≡ capacity
unfolding available
available_exact {capacity} {a = a} {live = live} i small r n = omega (
  arith,
  sum_values-total a.free_list
      (omega (arith, t.sound.well_formed.bounded, t.sound.well_formed.small, c.exact)),
  c.exact,
  c.same_capacity,
  t.sound.well_formed.bounded,
  t.sound.well_formed.small,
)
  where
    t : IsTidy a live
    t = Reach-IsTidy i small r

    c : IsAccounted capacity a live
    c = Reach-IsAccounted i small r n
