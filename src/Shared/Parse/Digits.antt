-- ===== src/Shared/Parse/Digits.antt =====
-- The digits that `format!` prints of a number are read back as the number.
use Prim.Native.Nat.{ℕ, zero, suc, ◌+◌, ◌/◌, ◌%◌, ◌≤◌, ◌<◌}
use mathlib.Core.Path.{◌≡◌, ◌∙◌}
use mathlib.Core.List.{List, [], ◌∷◌}
use native.Mathlib.Omega.{arith}
use kv_rdma_poc.Shared.Tests.{ltb, Bool-cases}
use mathlib.Core.Logic.{inl, inr}
use kv_rdma_poc.Shared.Results.{ok}
use kv_rdma_poc.Shared.Lists.{All, length}
use kv_rdma_poc.Shared.Text.{decimal, decimal_before}
use kv_rdma_poc.Shared.Parse.{parse_digits, parse_uint}

abbrev pub IsDigit : ℕ → Type 0
IsDigit c = (b'0' ≤ c) × (c ≤ b'9')

parse_digits-decimal_before :
    (limit fuel n : ℕ) (rest : List ℕ)
    → n < fuel
    → n < limit
    → parse_digits limit 0 (decimal_before fuel n rest) ≡ parse_digits limit n rest
unfolding parse_digits decimal_before
parse_digits-decimal_before limit zero n rest enough fits = absurd (omega arith)
parse_digits-decimal_before limit (suc fuel) n rest enough fits = elim (Bool-cases (ltb n 10)) [
  | inl one ↦ ground arith
  | inr more ↦ rw more (
      parse_digits-decimal_before limit fuel (n / 10) ((b'0' + n % 10) ∷ rest) (ground arith)
        (ground arith)
      ∙ ground arith)
]

decimal_before-IsDigit :
    (fuel n : ℕ) (rest : List ℕ) → All IsDigit rest → All IsDigit (decimal_before fuel n rest)
unfolding decimal_before
decimal_before-IsDigit zero n rest h = h
decimal_before-IsDigit (suc fuel) n rest h = elim (Bool-cases (ltb n 10)) [
  | inl one ↦ rw one ((omega arith, ground arith), h)
  | inr more ↦ rw more (
      decimal_before-IsDigit fuel (n / 10) ((b'0' + n % 10) ∷ rest) ((omega arith, omega arith), h))
]

pub decimal-IsDigit : (n : ℕ) → All IsDigit (decimal n)
unfolding decimal
decimal-IsDigit n = decimal_before-IsDigit (n + 1) n [] tt

length-decimal_before :
    (fuel n : ℕ) (rest : List ℕ) → length rest ≤ length (decimal_before fuel n rest)
unfolding decimal_before
length-decimal_before zero n rest = omega arith
length-decimal_before (suc fuel) n rest =
    ground (arith, length-decimal_before fuel (n / 10) ((b'0' + n % 10) ∷ rest))

pub length-decimal : (n : ℕ) → 0 < length (decimal n)
unfolding decimal decimal_before
length-decimal n = ground (arith, length-decimal_before n (n / 10) ((b'0' + n % 10) ∷ []))

-- A sign is not a digit.
parse_uint-digits :
    (limit : ℕ) (s : List ℕ)
    → All IsDigit s
    → 0 < length s
    → parse_uint limit s ≡ parse_digits limit 0 s
unfolding parse_uint
parse_uint-digits limit [] d h = absurd (omega arith)
parse_uint-digits limit (c ∷ []) d h = ground (arith, d.0)
parse_uint-digits limit (c ∷ e ∷ s) d h = ground (arith, d.0)

pub parse_uint-decimal : (limit n : ℕ) → n < limit → parse_uint limit (decimal n) ≡ ok n
parse_uint-decimal limit n fits =
    parse_uint-digits limit (decimal n) (decimal-IsDigit n) (length-decimal n) ∙ read
  where
    read : parse_digits limit 0 (decimal n) ≡ ok n
    read =
        unfold decimal parse_digits in
        parse_digits-decimal_before limit (n + 1) n [] (omega arith) fits
