-- ===== src/Memory/Allocator/Granular.antt =====
-- Requests for whole units of the alignment: every block that the allocator holds or hands out is
-- then made of whole units, and can be split.
use kv_rdma_poc.Shared.{
  ℕ, zero, suc, ◌+◌, ◌-◌, ◌*◌, ◌≤◌, ◌≡◌, ap, ◌∙◌, Option, some, [], ◌∷◌, arith, All,
}
use kv_rdma_poc.Memory.FreeList.{FreeList, All-get}
use kv_rdma_poc.Memory.Align.{
  align_up, IsAlignment, Multiple, IsRounded, align_up-Multiple, align_up-IsRounded,
}
use kv_rdma_poc.Memory.Allocator.{BumpAllocator}
use kv_rdma_poc.Memory.Allocator.Cases.{Served, reused, bumped, exhausted}
use kv_rdma_poc.Memory.Allocator.Conserve.{max_len, IsWithin, IsWellFormed, CanSplit}
use kv_rdma_poc.Memory.Allocator.Sound.{CanServe, Served-All}

-- A block of whole units.
abbrev pub IsUnits : ℕ → ℕ × ℕ → Type 0
IsUnits alignment b = Multiple alignment b.0 × Multiple alignment b.1

-- Blocks that are made of whole units of the alignment.
abbrev pub IsGranular : ℕ → FreeList → Type 0
IsGranular alignment = All (IsUnits alignment)

pub add-Multiple : (a x y : ℕ) → Multiple a x → Multiple a y → Multiple a (x + y)
add-Multiple a x y (p, e) (q, f) = (p + q, omega arith)

sub_mul : (p q a : ℕ) → (p - q) * a ≡ p * a - q * a
sub_mul zero q a = ap (λ (n : ℕ). n * a) zero_sub ∙ omega arith
  where
    zero_sub : 0 - q ≡ 0
    zero_sub = omega arith
sub_mul (suc p) zero a = ap (λ (n : ℕ). n * a) sub_zero ∙ omega arith
  where
    sub_zero : suc p - 0 ≡ suc p
    sub_zero = omega arith
sub_mul (suc p) (suc q) a = ap (λ (n : ℕ). n * a) suc_sub ∙ omega (arith, sub_mul p q a)
  where
    suc_sub : suc p - suc q ≡ p - q
    suc_sub = omega arith

pub sub-Multiple : (a x y : ℕ) → Multiple a x → Multiple a y → Multiple a (x - y)
sub-Multiple a x y (p, e) (q, f) = (p - q, omega (arith, sub_mul p q a))

-- Whole units can always be split.
pub IsGranular-CanSplit :
    (alignment size limit : ℕ) (free : FreeList)
    → IsAlignment alignment
    → limit + alignment ≤ max_len
    → Multiple alignment size
    → IsWithin limit free
    → IsGranular alignment free
    → All (CanSplit alignment size) free
IsGranular-CanSplit alignment size limit [] i small m w g = tt
IsGranular-CanSplit alignment size limit ((o, s) ∷ free) i small m w g = (
  λ l. omega (
    arith,
    align_up-Multiple alignment (o + size) i (omega arith) (add-Multiple alignment o size g.0.0 m),
  ),
  IsGranular-CanSplit alignment size limit free i small m w.1 g.1,
)

module _ (size : ℕ) (a : BumpAllocator) (w : IsWellFormed a) (len : size ≤ max_len)
    (unit : Multiple a.alignment size) (g : IsGranular a.alignment a.free_list) where
  pub granular-CanServe : CanServe a size
  granular-CanServe =
      IsGranular-CanSplit a.alignment size a.offset a.free_list w.aligned
        (omega (arith, w.bounded, w.small)) unit w.within g

  pub Served-Multiple :
      (offset : ℕ) (b : BumpAllocator) → Served size a (some offset) b → Multiple a.alignment offset
  Served-Multiple offset b (exhausted _ _ eo _) = absurd (cc eo)
  Served-Multiple offset b (bumped _ eo _) = rw found (rounded.quotient, rounded.multiple)
    where
      rounded : IsRounded a.alignment a.offset (align_up a.alignment a.offset)
      rounded =
          align_up-IsRounded a.alignment a.offset w.aligned (omega (arith, w.bounded, w.small))

      found : offset ≡ align_up a.alignment a.offset
      found = cc
  Served-Multiple offset b (reused o s e _ eo _) =
      rw found (All-get (IsUnits a.alignment) o s a.free_list g e).0
    where
      found : offset ≡ o
      found = cc

  pub Served-IsGranular :
      (o : Option ℕ) (b : BumpAllocator) → Served size a o b → IsGranular a.alignment b.free_list
  Served-IsGranular o b v =
      Served-All size a w len (IsUnits a.alignment) o b granular-CanServe
        (λ p q r m lo hi mr.
          (mr, sub-Multiple a.alignment (p + q) r (add-Multiple a.alignment p q m.0 m.1) mr))
        g v
