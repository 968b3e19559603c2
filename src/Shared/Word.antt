-- ===== src/Shared/Word.antt =====
-- `usize` and `u64` arithmetic of a release build, which wraps round at 2 ^ 64, and the mask that
-- rounds a number up to a power of two.
use Prim.Native.Nat.{
  ℕ, zero, suc, ◌+◌, ◌-◌, ◌*◌, ◌/◌, ◌%◌, ◌^◌, ◌≤◌, ◌<◌, min, bit_and, digits, bit_and-bitwise,
}
use mathlib.Core.Path.{◌≡◌, refl, sym, ap, ◌∙◌}
use native.Mathlib.Nat.{two-pow-succ, mul-one, add-zero}
use native.Mathlib.Omega.{arith}

abbrev pub word : ℕ
word = 2 ^ 64

abbrev pub add64 : ℕ → ℕ → ℕ
add64 a b = (a + b) % word

abbrev pub sub64 : ℕ → ℕ → ℕ
sub64 a b = (a + word - b) % word

abbrev pub mul64 : ℕ → ℕ → ℕ
mul64 a b = (a * b) % word

-- `!a`
abbrev pub not64 : ℕ → ℕ
not64 a = word - 1 - a

-- The meaning of the native operation, one binary digit at a time.
abbrev and_digits : ℕ → ℕ → ℕ → ℕ
and_digits = digits (λ y. 0) min

no_digits : (n y : ℕ) → and_digits n 0 y ≡ 0
no_digits zero y = refl
no_digits (suc n) y = refl

-- Steps beyond the first operand change nothing.
spare : (n m x y : ℕ) → n ≤ m → x ≤ n → and_digits m x y ≡ and_digits n x y
spare n m zero y more le = no_digits m y ∙ sym (no_digits n y)
spare zero m (suc x) y more le = absurd (omega arith)
spare (suc n) zero (suc x) y more le = absurd (omega arith)
spare (suc n) (suc m) (suc x) y more le =
    omega (arith, spare n m (suc x / 2) (y / 2) (omega arith) (omega arith))

-- The lowest digit, and the rest.
bit_and-halves : (x y : ℕ) → min (x % 2) (y % 2) + bit_and (x / 2) (y / 2) * 2 ≡ bit_and x y
bit_and-halves zero y = omega (arith, bit_and-bitwise 0 y, bit_and-bitwise 0 (y / 2))
bit_and-halves (suc x) y =
    let half = suc x / 2 in
    omega (arith, bit_and-bitwise (suc x) y, bit_and-bitwise half (y / 2), enough)
  where
    enough : and_digits x (suc x / 2) (y / 2) ≡ and_digits (suc x / 2) (suc x / 2) (y / 2)
    enough = spare (suc x / 2) x (suc x / 2) (y / 2) (omega arith) (omega arith)

bit_and-zero : (x m : ℕ) → x ≡ 0 → bit_and x m ≡ 0
bit_and-zero x m e = rw e (bit_and-bitwise 0 m)

-- A mask of ones keeps a number that it covers.
bit_and_ones : (w m x : ℕ) → suc m ≡ 2 ^ w → x ≤ m → bit_and x m ≡ x
bit_and_ones zero m x e h = bit_and-zero x m (omega arith) ∙ omega arith
bit_and_ones (suc w) m x e h = omega (
  arith,
  two-pow-succ w,
  bit_and-halves x m,
  bit_and_ones w (m / 2) (x / 2) (omega (arith, two-pow-succ w)) (omega arith),
)

double_pow : (m k : ℕ) → m * 2 ^ suc k ≡ m * 2 ^ k + m * 2 ^ k
double_pow m k = rw (two-pow-succ k) (omega arith)

-- Zeros below a mask clear the digits there.
bit_and_shifted :
    (k m q x y : ℕ)
    → y ≡ m * 2 ^ k
    → q * 2 ^ k ≤ x
    → x < q * 2 ^ k + 2 ^ k
    → bit_and q m ≡ q
    → bit_and x y ≡ q * 2 ^ k
bit_and_shifted zero m q x y hy lo hi h = cc (eq_q, eq_m, h, mul-one q)
  where
    eq_q : x ≡ q
    eq_q = omega arith

    eq_m : y ≡ m
    eq_m = omega arith
bit_and_shifted (suc k) m q x y hy lo hi h = omega (
  arith,
  two-pow-succ k,
  double_pow m k,
  double_pow q k,
  bit_and-halves x y,
  bit_and_shifted k m q (x / 2) (y / 2) (omega (arith, double_pow m k))
      (omega (arith, double_pow q k)) (omega (arith, double_pow q k, two-pow-succ k)) h,
)

pow_join : (j k n : ℕ) → j + k ≡ n → 2 ^ j * 2 ^ k ≡ 2 ^ n
pow_join j zero n e = rw (← e) (omega (arith, ap (λ (i : ℕ). 2 ^ i) (add-zero j)))
pow_join j (suc k) zero e = absurd (omega arith)
pow_join j (suc k) (suc n) e =
    omega (arith, double_pow (2 ^ j) k, two-pow-succ n, pow_join j k n (omega arith))

pub pow-pos : (n : ℕ) → 0 < 2 ^ n
pow-pos zero = omega arith
pow-pos (suc n) = omega (arith, two-pow-succ n, pow-pos n)

suc-sub-one : (a : ℕ) → suc a - 1 ≡ a
suc-sub-one a = omega arith

pred_mul : (a p : ℕ) → 0 < a → (a - 1) * p + p ≡ a * p
pred_mul zero p h = elim h [ ]
pred_mul (suc a) p h = rw (suc-sub-one a) (omega arith)

-- `x & !(2 ^ k - 1)` rounds a word down to a multiple of `2 ^ k`.
pub bit_and-not64 :
    (k q x : ℕ)
    → k ≤ 64
    → q * 2 ^ k ≤ x
    → x < q * 2 ^ k + 2 ^ k
    → x < word
    → bit_and x (not64 (2 ^ k - 1)) ≡ q * 2 ^ k
bit_and-not64 k q x hk lo hi hx =
    bit_and_shifted k (2 ^ (64 - k) - 1) q x (not64 (2 ^ k - 1))
      (omega (arith, whole, pow-pos k, pred_mul (2 ^ (64 - k)) (2 ^ k) (pow-pos (64 - k)))) lo hi
      (bit_and_ones (64 - k) (2 ^ (64 - k) - 1) q (omega (arith, pow-pos (64 - k))) fits)
  where
    whole : 2 ^ (64 - k) * 2 ^ k ≡ word
    whole = pow_join (64 - k) k 64 (omega arith)

    fits : q ≤ 2 ^ (64 - k) - 1
    fits = grind (arith, whole, pow-pos (64 - k), pow-pos k)
