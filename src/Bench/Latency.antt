-- ===== src/Bench/Latency.antt =====
-- The statistics of `latency_analysis` in src/bin/bench.rs.
pub mod Order
use kv_rdma_poc.Shared.{
  ℕ, ◌+◌, ◌-◌, ◌%◌, ◌^◌, List, [], ◌∷◌, leb, if◌then◌else◌, length, Exec, pure, ◌>>=◌,
}
use kv_rdma_poc.Shared.Word.{mul64}
use kv_rdma_poc.Message.{Message}
use kv_rdma_poc.Bench.{div, index}

-- Durations, in nanoseconds.
pub record Statistics : Type 0 where
  pub min : ℕ
  pub max : ℕ
  pub median : ℕ
  pub p95 : ℕ
  pub p99 : ℕ
  pub avg : ℕ

abbrev pub insert : ℕ → List ℕ → List ℕ
insert x [] = x ∷ []
insert x (y ∷ ys) = if leb x y then x ∷ y ∷ ys else y ∷ insert x ys

unfoldable pub sort : List ℕ → List ℕ
sort [] = []
sort (x ∷ xs) = insert x (sort xs)

abbrev pub sum : List ℕ → ℕ
sum [] = 0
sum (x ∷ xs) = x + sum xs

-- Of sorted times.
unfoldable pub summary : {S : Type 0} → List ℕ → Exec S Message Statistics
summary latencies = do
  min ← index latencies 0
  max ← index latencies (length latencies - 1)
  half ← div (length latencies) 2
  median ← index latencies half
  at_95 ← div (mul64 (length latencies) 95) 100
  p95 ← index latencies at_95
  at_99 ← div (mul64 (length latencies) 99) 100
  p99 ← index latencies at_99
  avg ← div (sum latencies) (length latencies % 2 ^ 32)
  pure (record { min = min; max = max; median = median; p95 = p95; p99 = p99; avg = avg })

unfoldable pub statistics : {S : Type 0} → List ℕ → Exec S Message Statistics
unfolding sort summary
statistics latencies = summary (sort latencies)
