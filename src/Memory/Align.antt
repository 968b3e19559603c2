-- ===== src/Memory/Align.antt =====
-- The rounding `(x + alignment - 1) & !(alignment - 1)` of src/memory.rs.
use Prim.Native.Nat.{bit_and}
use native.Mathlib.Nat.{div-add-mod'}
use kv_rdma_poc.Shared.{ℕ, ◌+◌, ◌-◌, ◌*◌, ◌/◌, ◌%◌, ◌^◌, ◌≤◌, ◌<◌, ◌≡◌, ap, sym, ◌∙◌, arith}
use kv_rdma_poc.Shared.Word.{word, add64, sub64, not64, pow-pos, bit_and-not64}

unfoldable pub align_up : ℕ → ℕ → ℕ
align_up alignment x = bit_and (sub64 (add64 x alignment) 1) (not64 (sub64 alignment 1))

-- An alignment that the code is written for: a power of two that fits a word.
pub record IsAlignment (alignment : ℕ) : Type 0 where
  pub bits : ℕ
  pub bits_le : bits ≤ 62
  pub is_pow : alignment ≡ 2 ^ bits

abbrev pub Multiple : ℕ → ℕ → Type 0
Multiple a x = (q : ℕ) × (x ≡ q * a)

-- Rounding up gives the multiple that is meant, as long as the sum before the mask does not wrap.
align_up-eq :
    (a x q : ℕ) (i : IsAlignment a)
    → x + a ≤ word
    → x ≤ q * a
    → q * a < x + a
    → align_up a x ≡ q * a
unfolding align_up
align_up-eq a x q i fits lo hi = rw (sum, mask) (rounded ∙ ap (λ (p : ℕ). q * p) (sym i.is_pow))
  where
    scaled : q * a ≡ q * 2 ^ i.bits
    scaled = ap (λ (p : ℕ). q * p) i.is_pow

    sum : sub64 (add64 x a) 1 ≡ x + a - 1
    sum = omega (arith, pow-pos i.bits)

    mask : sub64 a 1 ≡ 2 ^ i.bits - 1
    mask = omega (arith, pow-pos i.bits)

    rounded : bit_and (x + a - 1) (not64 (2 ^ i.bits - 1)) ≡ q * 2 ^ i.bits
    rounded =
        bit_and-not64 i.bits q (x + a - 1) (omega arith) (omega (arith, scaled, pow-pos i.bits))
          (omega (arith, scaled)) (omega (arith, pow-pos i.bits))

pub record IsRounded (a x y : ℕ) : Type 0 where
  pub lower : x ≤ y
  pub upper : y < x + a
  pub quotient : ℕ
  pub multiple : y ≡ quotient * a

-- Where the alignment is a power of two of at most 2 ^ 62 and the argument and the alignment do
-- not pass a word together, rounding up gives a multiple of the alignment that is at least the
-- argument and less than one alignment above it.
pub align_up-IsRounded : (a x : ℕ) → IsAlignment a → x + a ≤ word → IsRounded a x (align_up a x)
align_up-IsRounded a x i fits = record {
  lower = omega (arith, eq, pos, split);
  upper = omega (arith, eq, pos, split);
  quotient = q;
  multiple = eq;
}
  where
    q : ℕ
    q = (x + a - 1) / a

    pos : 0 < a
    pos = omega (arith, pow-pos i.bits, i.is_pow)

    split : (x + a - 1) / a * a + (x + a - 1) % a ≡ x + a - 1
    split = div-add-mod' (x + a - 1) a

    eq : align_up a x ≡ (x + a - 1) / a * a
    eq =
        align_up-eq a x ((x + a - 1) / a) i fits (omega (arith, pos, split))
          (omega (arith, pos, split))

-- A multiple is its own rounding.
pub align_up-Multiple : (a x : ℕ) → IsAlignment a → x + a ≤ word → Multiple a x → align_up a x ≡ x
align_up-Multiple a x i fits (q, e) =
    align_up-eq a x q i fits (omega arith) (omega (arith, pow-pos i.bits, i.is_pow)) ∙ sym e
