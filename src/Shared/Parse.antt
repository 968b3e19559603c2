-- ===== src/Shared/Parse.antt =====
-- What the code calls of `str` and of `FromStr` for the unsigned integers: text is the list of its code
-- points.
pub mod Digits
pub mod Split
pub mod Words
use Prim.Native.Nat.{ℕ, zero, suc, ◌+◌, ◌-◌, ◌*◌, ◌≤◌, ◌<◌}
use mathlib.Core.Bool.{Bool, true, false, not, ◌&&◌, ◌||◌}
use mathlib.Core.Option.{Option, none, some}
use mathlib.Core.List.{List, [], ◌∷◌}
use kv_rdma_poc.Shared.Tests.{ltb, leb, ◌==◌, if◌then◌else◌}
use kv_rdma_poc.Shared.Results.{Outcome, ok, err}

-- `White_Space`
unfoldable pub is_white : ℕ → Bool
is_white c =
    (leb 9 c && leb c 13)
    || c == 32
    || c == 0x85
    || c == 0xA0
    || c == 0x1680
    || (leb 0x2000 c && leb c 0x200A)
    || c == 0x2028
    || c == 0x2029
    || c == 0x202F
    || c == 0x205F
    || c == 0x3000

unfoldable pub trim_start : List ℕ → List ℕ
trim_start [] = []
trim_start (c ∷ s) = if is_white c then trim_start s else c ∷ s

abbrev pub is_nil : {A : Type 0} → List A → Bool
is_nil [] = true
is_nil (x ∷ xs) = false

unfoldable pub trim_end : List ℕ → List ℕ
trim_end [] = []
trim_end (c ∷ s) = let rest = trim_end s in if is_white c && is_nil rest then [] else c ∷ rest

unfoldable pub trim : List ℕ → List ℕ
unfolding trim_start trim_end
trim s = trim_end (trim_start s)

abbrev pub onto_first : ℕ → List (List ℕ) → List (List ℕ)
onto_first c [] = (c ∷ []) ∷ []
onto_first c (w ∷ ws) = (c ∷ w) ∷ ws

-- `split` at each character that passes the test.
unfoldable pub split : (ℕ → Bool) → List ℕ → List (List ℕ)
split at [] = [] ∷ []
split at (c ∷ s) = if at c then [] ∷ split at s else onto_first c (split at s)

unfoldable pub split_once : ℕ → List ℕ → Option (List ℕ × List ℕ)
split_once mark [] = none
split_once mark (c ∷ s) =
    let rest = split_once mark s in
    if c == mark then some ([], s) else elim rest [ none ↦ none | some (a, b) ↦ some (c ∷ a, b) ]

unfoldable pub without_nil : List (List ℕ) → List (List ℕ)
without_nil [] = []
without_nil (w ∷ ws) = if is_nil w then without_nil ws else w ∷ without_nil ws

unfoldable pub split_whitespace : List ℕ → List (List ℕ)
unfolding is_white split without_nil
split_whitespace s = without_nil (split is_white s)

-- `==` on `str`
abbrev pub same_text : List ℕ → List ℕ → Bool
same_text [] [] = true
same_text (a ∷ s) (b ∷ t) = (a == b) && same_text s t
same_text [] (b ∷ t) = false
same_text (a ∷ s) [] = false

unfoldable pub strip_suffix : List ℕ → List ℕ → Option (List ℕ)
strip_suffix suffix [] = if is_nil suffix then some [] else none
strip_suffix suffix (c ∷ s) =
    let rest = strip_suffix suffix s in
    if same_text suffix (c ∷ s) then some [] else elim rest [ none ↦ none | some t ↦ some (c ∷ t) ]

-- The ASCII part of `to_uppercase`. No other character becomes a digit or one of B, K, M and G.
unfoldable pub to_upper : ℕ → ℕ
to_upper c = if leb b'a' c && leb c b'z' then c - 32 else c

-- `IntErrorKind`
pub data IntError : Type 0 where
  empty_text invalid_digit pos_overflow : IntError

-- The digits after `acc`, of a number below `limit`.
unfoldable pub parse_digits : ℕ → ℕ → List ℕ → Outcome IntError ℕ
parse_digits limit acc [] = ok acc
parse_digits limit acc (c ∷ s) =
    let rest = parse_digits limit (acc * 10 + (c - b'0')) s in
    if ltb c b'0' || ltb b'9' c
    then err invalid_digit
    else if leb limit (acc * 10 + (c - b'0'))
    then err pos_overflow
    else rest

-- `from_str` of the unsigned type whose values are below `limit`.
unfoldable pub parse_uint : ℕ → List ℕ → Outcome IntError ℕ
unfolding parse_digits
parse_uint limit [] = err empty_text
parse_uint limit (c ∷ []) =
    if c == b'+' || c == b'-' then err invalid_digit else parse_digits limit 0 (c ∷ [])
parse_uint limit (c ∷ d ∷ s) =
    if c == b'+' then parse_digits limit 0 (d ∷ s) else parse_digits limit 0 (c ∷ d ∷ s)
