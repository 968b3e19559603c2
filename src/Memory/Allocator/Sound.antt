-- ===== src/Memory/Allocator/Sound.antt =====
-- The allocator beside the blocks that its callers hold.
use kv_rdma_poc.Shared.{
  ℕ, ◌+◌, ◌-◌, ◌≤◌, ◌≡◌, refl, Option, none, some, [], ◌∷◌, arith, All, ltb, if◌then◌else◌,
}
use kv_rdma_poc.Shared.Word.{add64}
use kv_rdma_poc.Memory.FreeList.{
  FreeList, without, cover, covers, cover-without, All-without, All-get,
}
use kv_rdma_poc.Memory.FreeList.Sorted.{without-IsSorted}
use kv_rdma_poc.Memory.Align.{align_up, Multiple, IsRounded, align_up-IsRounded}
use kv_rdma_poc.Memory.Allocator.{BumpAllocator}
use kv_rdma_poc.Memory.Allocator.Cases.{Served, reused, bumped, exhausted}
use kv_rdma_poc.Memory.Allocator.Conserve.{
  max_len, IsWithin, IsWellFormed, CanSplit, cover-give_back, All-give_back, give_back-IsSorted,
}

-- Whether the byte at `x` lies below the bump offset: 1 or 0.
abbrev pub inside : ℕ → ℕ → ℕ
inside x limit = if ltb x limit then 1 else 0

abbrev pub taken : ℕ → Option ℕ → ℕ → ℕ
taken x none size = 0
taken x (some offset) size = covers x offset size

abbrev pub IsWithinOption : ℕ → Option ℕ → ℕ → Type 0
IsWithinOption limit none size = Unit
IsWithinOption limit (some offset) size = offset + size ≤ limit

-- Every free block that may serve `size` bytes can be split.
abbrev pub CanServe : BumpAllocator → ℕ → Type 0
CanServe a size = All (CanSplit a.alignment size) a.free_list

pub IsWithin-mono : (m n : ℕ) (l : FreeList) → m ≤ n → IsWithin m l → IsWithin n l
IsWithin-mono m n [] h w = tt
IsWithin-mono m n ((o, s) ∷ l) h w = (omega arith, IsWithin-mono m n l h w.1)

-- What one call of `allocate` does to the bytes of the pool.
pub record IsConserving (size : ℕ) (a : BumpAllocator) (o : Option ℕ) (b : BumpAllocator)
    : Type 0 where
  pub same_capacity : b.capacity ≡ a.capacity
  pub same_alignment : b.alignment ≡ a.alignment
  pub grows : a.offset ≤ b.offset
  pub well_formed : IsWellFormed b
  pub in_range : IsWithinOption b.offset o size
  pub conserves :
      (x : ℕ)
      → taken x o size + cover x b.free_list + inside x a.offset
        ≤ cover x a.free_list + inside x b.offset

module _ (size : ℕ) (a : BumpAllocator) (w : IsWellFormed a) (len : size ≤ max_len) where
  room : IsRounded a.alignment a.offset (align_up a.alignment a.offset)
  room = align_up-IsRounded a.alignment a.offset w.aligned (omega (arith, w.bounded, w.small))

  pub Served-IsConserving :
      (o : Option ℕ) (b : BumpAllocator)
      → CanServe a size
      → Served size a o b
      → IsConserving size a o b
  Served-IsConserving o b fits (exhausted _ _ eo eb) =
      rw (eo, eb)
        (record {
          same_capacity = refl;
          same_alignment = refl;
          grows = omega arith;
          well_formed = w;
          in_range = tt;
          conserves = λ x. omega arith;
        })
  Served-IsConserving o b fits (bumped h eo eb) =
      rw (eo, eb, sum)
        (record {
          same_capacity = refl;
          same_alignment = refl;
          grows = omega (arith, room);
          well_formed = record {
            aligned = w.aligned;
            sorted = w.sorted;
            bounded = omega (arith, sum);
            small = w.small;
            within =
                IsWithin-mono a.offset (align_up a.alignment a.offset + size) a.free_list
                  (omega (arith, room)) w.within;
          };
          in_range = omega arith;
          conserves = λ x. ground (arith, room);
        })
    where
      sum : add64 (align_up a.alignment a.offset) size ≡ align_up a.alignment a.offset + size
      sum = omega (arith, room, w.bounded, w.small)
  Served-IsConserving o b fits (reused offset block_size eg l eo eb) =
      rw (eo, eb)
        (record {
          same_capacity = refl;
          same_alignment = refl;
          grows = omega arith;
          well_formed = record {
            aligned = w.aligned;
            sorted =
                give_back-IsSorted a.alignment size offset block_size rest
                  (without-IsSorted offset a.free_list w.sorted);
            bounded = w.bounded;
            small = w.small;
            within =
                All-give_back a.alignment size offset block_size rest
                  (λ (b : ℕ × ℕ). b.0 + b.1 ≤ a.offset) w.aligned near l split
                  (λ r lo hi q. omega (arith, block))
                  (All-without (λ (b : ℕ × ℕ). b.0 + b.1 ≤ a.offset) offset a.free_list w.within);
          };
          in_range = omega (arith, block);
          conserves = λ x. omega (
            arith,
            cover-give_back a.alignment size offset block_size rest x w.aligned near l split,
            cover-without x offset block_size a.free_list eg,
          );
        })
    where
      rest : FreeList
      rest = without offset a.free_list

      block : offset + block_size ≤ a.offset
      block =
          All-get (λ (b : ℕ × ℕ). b.0 + b.1 ≤ a.offset) offset block_size a.free_list w.within eg

      near : offset + block_size + a.alignment ≤ max_len
      near = omega (arith, block, w.bounded, w.small)

      split : CanSplit a.alignment size (offset, block_size)
      split = All-get (CanSplit a.alignment size) offset block_size a.free_list fits eg

  -- With an invariant on the blocks that splitting and freeing keep, it holds of the list again.
  pub Served-All :
      (P : ℕ × ℕ → Type 0) (o : Option ℕ) (b : BumpAllocator)
      → CanServe a size
      → ((offset block_size r : ℕ)
          → P (offset, block_size)
          → offset + size ≤ r
          → r ≤ offset + block_size
          → Multiple a.alignment r
          → P (r, offset + block_size - r))
      → All P a.free_list
      → Served size a o b
      → All P b.free_list
  Served-All P o b fits cut h (exhausted _ _ eo eb) = rw eb h
  Served-All P o b fits cut h (bumped _ eo eb) = rw eb h
  Served-All P o b fits cut h (reused offset block_size eg l eo eb) = rw eb (
      All-give_back a.alignment size offset block_size (without offset a.free_list) P w.aligned
        (omega (arith, block, w.bounded, w.small)) l
        (All-get (CanSplit a.alignment size) offset block_size a.free_list fits eg)
        (λ r lo hi q.
          cut offset block_size r (All-get P offset block_size a.free_list h eg) lo hi q)
        (All-without P offset a.free_list h))
    where
      block : offset + block_size ≤ a.offset
      block =
          All-get (λ (b : ℕ × ℕ). b.0 + b.1 ≤ a.offset) offset block_size a.free_list w.within eg
