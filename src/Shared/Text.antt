-- ===== src/Shared/Text.antt =====
-- Text as a list of byte codes, and the decimal digits that `format!` prints.
use Prim.Native.Nat.{ℕ, zero, suc, ◌+◌, ◌-◌, ◌/◌, ◌%◌}
use Prim.Native.Char.{code}
use Prim.Native.String.{String}
use mathlib.Core.Path.{◌≡◌, refl}
use native.Mathlib.Omega.{arith}
use mathlib.Core.List.{List, [], ◌∷◌}
use kv_rdma_poc.Shared.Lists.{length}
use kv_rdma_poc.Shared.Tests.{ltb, if◌then◌else◌}

abbrev pub codes : String → List ℕ
codes String.[] = []
codes (String.◌∷◌ c s) = code c ∷ codes s

-- The digits of `n` before those in `acc`; a number has no more digits than `fuel` = `n + 1`.
unfoldable pub decimal_before : ℕ → ℕ → List ℕ → List ℕ
decimal_before zero n acc = acc
decimal_before (suc fuel) n acc =
    let rest = decimal_before fuel (n / 10) ((b'0' + n % 10) ∷ acc) in
    if ltb n 10 then (b'0' + n) ∷ acc else rest

unfoldable pub decimal : ℕ → List ℕ
unfolding decimal_before
decimal n = decimal_before (n + 1) n []

-- `0..n` as the list of its numbers, from `start` on.
unfoldable pub range_from : ℕ → ℕ → List ℕ
range_from start zero = []
range_from start (suc n) = start ∷ range_from (start + 1) n

pub length-range_from : (start n : ℕ) → length (range_from start n) ≡ n
unfolding range_from
length-range_from start zero = refl
length-range_from start (suc n) = omega (arith, length-range_from (start + 1) n)

unfoldable pub zeros : ℕ → List ℕ → List ℕ
zeros zero s = s
zeros (suc n) s = b'0' ∷ zeros n s

-- `{:0width}`
unfoldable pub pad_zeros : ℕ → List ℕ → List ℕ
unfolding zeros
pad_zeros width digits = zeros (width - length digits) digits
