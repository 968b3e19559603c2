-- ===== src/Bench/Latency/Order.antt =====
-- The order of the statistics of src/bin/bench.rs.
use kv_rdma_poc.Shared.{
  ℕ, zero, suc, ◌-◌, ◌/◌, ◌%◌, ◌^◌, ◌≤◌, ◌<◌, ◌≡◌, refl, List, ◌∙◌, ap, [], ◌∷◌, some, leb, length,
  ok, All, Bool-cases, inl, inr, arith,
}
use kv_rdma_poc.Shared.Word.{mul64}
use kv_rdma_poc.Bench.{nth}
use kv_rdma_poc.Bench.Index.{nth-some, nth-All, index-some, div_pos}
use kv_rdma_poc.Bench.Latency.{Statistics, insert, sort, sum, summary, statistics}

abbrev IsSorted : List ℕ → Type 0
IsSorted [] = Unit
IsSorted (x ∷ xs) = All (λ y. x ≤ y) xs × IsSorted xs

All-le : (x y : ℕ) (xs : List ℕ) → x ≤ y → All (λ z. y ≤ z) xs → All (λ z. x ≤ z) xs
All-le x y [] h a = tt
All-le x y (z ∷ xs) h (p, a) = (omega arith, All-le x y xs h a)

module _ (P : ℕ → Type 0) where
  All-insert : (x : ℕ) (xs : List ℕ) → P x → All P xs → All P (insert x xs)
  All-insert x [] p a = (p, tt)
  All-insert x (y ∷ xs) p (q, a) = elim (Bool-cases (leb x y)) [
    | inl e ↦ rw e (p, (q, a))
    | inr e ↦ rw e (q, All-insert x xs p a)
  ]

  All-of_insert : (x : ℕ) (xs : List ℕ) → All P (insert x xs) → P x × All P xs
  All-of_insert x [] a = a
  All-of_insert x (y ∷ xs) a = elim (Bool-cases (leb x y)) [
    | inl e ↦ (rw e at a)
    | inr e ↦
        let a' : P y × All P (insert x xs) = rw e at a in
        let r = All-of_insert x xs a'.1 in (r.0, (a'.0, r.1))
  ]

  All-of_sort : (xs : List ℕ) → All P (sort xs) → All P xs
  unfolding sort
  All-of_sort [] a = tt
  All-of_sort (x ∷ xs) a = let r = All-of_insert x (sort xs) a in (r.0, All-of_sort xs r.1)

insert-IsSorted : (x : ℕ) (xs : List ℕ) → IsSorted xs → IsSorted (insert x xs)
insert-IsSorted x [] h = (tt, tt)
insert-IsSorted x (y ∷ xs) (a, h) = elim (Bool-cases (leb x y)) [
  | inl e ↦ rw e ((ground arith, All-le x y xs (ground arith) a), (a, h))
  | inr e ↦ rw e (All-insert (λ z. y ≤ z) x xs (ground arith) a, insert-IsSorted x xs h)
]

sort-IsSorted : (xs : List ℕ) → IsSorted (sort xs)
unfolding sort
sort-IsSorted [] = tt
sort-IsSorted (x ∷ xs) = insert-IsSorted x (sort xs) (sort-IsSorted xs)

length-insert : (x : ℕ) (xs : List ℕ) → length (insert x xs) ≡ suc (length xs)
length-insert x [] = refl
length-insert x (y ∷ xs) = ground (arith, length-insert x xs)

length-sort : (xs : List ℕ) → length (sort xs) ≡ length xs
unfolding sort
length-sort [] = refl
length-sort (x ∷ xs) = length-insert x (sort xs) ∙ ap suc (length-sort xs)

nth_le :
    (xs : List ℕ) (i j : ℕ) {a b : ℕ}
    → IsSorted xs
    → i ≤ j
    → nth xs i ≡ some a
    → nth xs j ≡ some b
    → a ≤ b
nth_le [] i j h l p q = cc
nth_le (x ∷ xs) zero zero h l p q = ground arith
nth_le (x ∷ xs) zero (suc j) h l p q = let r = nth-All (λ y. x ≤ y) xs j q h.0 in ground arith
nth_le (x ∷ xs) (suc i) zero h l p q = absurd (omega arith)
nth_le (x ∷ xs) (suc i) (suc j) h l p q = nth_le xs i j h.1 (omega arith) p q

All-upto :
    (xs : List ℕ) (i b : ℕ)
    → suc i ≡ length xs
    → IsSorted xs
    → nth xs i ≡ some b
    → All (λ x. x ≤ b) xs
All-upto [] i b l h q = tt
All-upto (x ∷ []) zero b l h q = (ground arith, tt)
All-upto (x ∷ []) (suc i) b l h q = cc
All-upto (x ∷ y ∷ xs) zero b l h q = absurd (omega arith)
All-upto (x ∷ y ∷ xs) (suc i) b l h q =
    let r = All-upto (y ∷ xs) i b (omega arith) h.1 q in (ground (arith, h.0.0, r.0), r)

All-from : (xs : List ℕ) (a : ℕ) → IsSorted xs → nth xs 0 ≡ some a → All (λ x. a ≤ x) xs
All-from [] a h p = tt
All-from (x ∷ xs) a h p = (ground arith, All-le a x xs (ground arith) h.0)

All-both : (P Q : ℕ → Type 0) (xs : List ℕ) → All P xs → All Q xs → All (λ x. P x × Q x) xs
All-both P Q [] h k = tt
All-both P Q (x ∷ xs) (p, h) (q, k) = ((p, q), All-both P Q xs h k)

-- What the statistics of times say: they are in order, and every time is within them.
abbrev pub Summarises : Statistics → List ℕ → Type 0
Summarises r xs =
    (r.min ≤ r.median)
    × (r.median ≤ r.p95)
    × (r.p95 ≤ r.p99)
    × (r.p99 ≤ r.max)
    × All (λ x. (r.min ≤ x) × (x ≤ r.max)) xs

summary_ordered :
    {S : Type 0} (xs : List ℕ) (s : S)
    → IsSorted xs
    → 0 < length xs
    → length xs < 2 ^ 32
    → (r : Statistics) × (summary xs s ≡ (ok r, s)) × Summarises r xs
unfolding summary
summary_ordered xs s h some_time few =
    let (a, p) = nth-some xs 0 some_time in
    let (b, q) = nth-some xs (length xs - 1) (omega arith) in
    let (m, e50) = nth-some xs (length xs / 2) (omega arith) in
    let (x, e95) = nth-some xs (mul64 (length xs) 95 / 100) (omega arith) in
    let (y, e99) = nth-some xs (mul64 (length xs) 99 / 100) (omega arith) in
    (
      record {
        min = a;
        max = b;
        median = m;
        p95 = x;
        p99 = y;
        avg = sum xs / (length xs % 2 ^ 32);
      },
      simp (
        index-some xs 0 s p,
        index-some xs _ s q,
        index-some xs _ s e50,
        index-some xs _ s e95,
        index-some xs _ s e99,
        div_pos (sum xs) (length xs % 2 ^ 32) s (omega arith),
      ),
      (
        nth_le xs _ _ h (omega arith) p e50,
        nth_le xs _ _ h (omega arith) e50 e95,
        nth_le xs _ _ h (omega arith) e95 e99,
        nth_le xs _ _ h (omega arith) e99 q,
        All-both _ _ xs (All-from xs a h p) (All-upto xs (length xs - 1) b (omega arith) h q),
      ),
    )

-- For at least one and fewer than 2 ^ 32 times, the statistics do not panic; the minimum, the
-- median, the 95th and the 99th percentile and the maximum are in this order, and every time lies
-- between the minimum and the maximum.
pub statistics_ordered :
    {S : Type 0} (xs : List ℕ) (s : S)
    → 0 < length xs
    → length xs < 2 ^ 32
    → (r : Statistics) × (statistics xs s ≡ (ok r, s)) × Summarises r xs
unfolding statistics
statistics_ordered xs s some_time few =
    let e = length-sort xs in
    let (r, run, (a, b, c, d, all)) =
      summary_ordered (sort xs) s (sort-IsSorted xs) (omega arith) (omega arith) in
    (r, run, (a, b, c, d, All-of_sort _ xs all))
