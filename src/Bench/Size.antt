-- ===== src/Bench/Size.antt =====
-- `parse_size` of src/bin/bench.rs.
pub mod Print
use kv_rdma_poc.Shared.{
  ℕ, ◌+◌, ◌*◌, ◌%◌, ◌^◌, ◌≤◌, ◌<◌, ◌≡◌, ◌≢◌, refl, ap, ◌∙◌, List, [], ◌∷◌, ◌++◌, Option, none, some,
  map, arith, All, Outcome, ok, err, panic, ◌==◌, ◌&&◌, true, false,
}
use kv_rdma_poc.Shared.Word.{word, mul64}
use kv_rdma_poc.Shared.Text.{codes, decimal}
use kv_rdma_poc.Shared.Parse.{IntError, trim, strip_suffix, to_upper, parse_uint, same_text}
use kv_rdma_poc.Shared.Parse.Digits.{IsDigit, decimal-IsDigit, parse_uint-decimal}
use kv_rdma_poc.Message.{Message, parse_int}

-- `parse::<usize>()? * factor`, which wraps round.
abbrev scaled : ℕ → Outcome IntError ℕ → Outcome Message ℕ
scaled factor (ok n) = ok (mul64 n factor)
scaled factor (err e) = err (parse_int e)
scaled factor panic = panic

abbrev unscaled : Outcome IntError ℕ → Outcome Message ℕ
unscaled (ok n) = ok n
unscaled (err e) = err (parse_int e)
unscaled panic = panic

unfoldable pub parse_upper : List ℕ → Outcome Message ℕ
unfolding strip_suffix parse_uint
parse_upper s = elim (strip_suffix (codes "KB") s) [
  | some stripped ↦ scaled 1024 (parse_uint word stripped)
  | none ↦ elim (strip_suffix (codes "MB") s) [
    | some stripped ↦ scaled (1024 * 1024) (parse_uint word stripped)
    | none ↦ elim (strip_suffix (codes "GB") s) [
      | some stripped ↦ scaled (1024 * 1024 * 1024) (parse_uint word stripped)
      | none ↦ elim (strip_suffix (codes "B") s) [
        | some stripped ↦ unscaled (parse_uint word stripped)
        | none ↦ unscaled (parse_uint word s)
      ]
    ]
  ]
]

unfoldable pub parse_size : List ℕ → Outcome Message ℕ
unfolding parse_upper trim to_upper
parse_size s = parse_upper (map to_upper (trim s))
