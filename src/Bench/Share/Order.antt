-- ===== src/Bench/Share/Order.antt =====
-- The shares of all workers, in the order in which the workers run.
use kv_rdma_poc.Shared.{
  ℕ, zero, suc, ◌+◌, ◌-◌, ◌≤◌, ◌<◌, ◌≡◌, refl, ap, ◌⊎◌, inl, inr, List, [], ◌∷◌, All, Bool-cases,
  ◌==◌, arith,
}
use kv_rdma_poc.Shared.Text.{range_from}
use kv_rdma_poc.Bench.Share.{
  start_idx, end_idx, every_key_shared, share_ordered, share_next, share_last,
}

-- The same numbers in another order.
pub data Shuffle : List ℕ → List ℕ → Type 0 where
  same : (xs : List ℕ) → Shuffle xs xs
  skip : (x : ℕ) {xs ys : List ℕ} → Shuffle xs ys → Shuffle (x ∷ xs) (x ∷ ys)
  swap : (x y : ℕ) (xs : List ℕ) → Shuffle (x ∷ y ∷ xs) (y ∷ x ∷ xs)
  next : {xs ys zs : List ℕ} → Shuffle xs ys → Shuffle ys zs → Shuffle xs zs

Shuffle-All : (P : ℕ → Type 0) {xs ys : List ℕ} → Shuffle xs ys → All P xs → All P ys
Shuffle-All P (same xs) a = a
Shuffle-All P (skip x s) (p, a) = (p, Shuffle-All P s a)
Shuffle-All P (swap x y xs) (p, (q, a)) = (q, (p, a))
Shuffle-All P (next s r) a = Shuffle-All P r (Shuffle-All P s a)

module _ (num_keys num_workers : ℕ) where
  abbrev pub InShare : ℕ → ℕ → Type 0
  InShare idx w = (start_idx num_keys num_workers w ≤ idx) × (idx < end_idx num_keys num_workers w)

  abbrev pub size : ℕ → ℕ
  size w = end_idx num_keys num_workers w - start_idx num_keys num_workers w

  unfoldable pub sizes : List ℕ → ℕ
  sizes [] = 0
  sizes (w ∷ ws) = size w + sizes ws

  abbrev pub InSomeShare : List ℕ → ℕ → Type 0
  InSomeShare [] idx = ⊥
  InSomeShare (w ∷ ws) idx = InShare idx w ⊎ InSomeShare ws idx

  Shuffle-sizes : {xs ys : List ℕ} → Shuffle xs ys → sizes xs ≡ sizes ys
  unfolding sizes
  Shuffle-sizes (same xs) = refl
  Shuffle-sizes (skip x s) = omega (arith, Shuffle-sizes s)
  Shuffle-sizes (swap x y xs) = omega arith
  Shuffle-sizes (next s r) = omega (arith, Shuffle-sizes s, Shuffle-sizes r)

  Shuffle-InSomeShare :
      {xs ys : List ℕ} → Shuffle xs ys → (idx : ℕ) → InSomeShare xs idx → InSomeShare ys idx
  Shuffle-InSomeShare (same xs) idx h = h
  Shuffle-InSomeShare (skip x s) idx (inl h) = inl h
  Shuffle-InSomeShare (skip x s) idx (inr h) = inr (Shuffle-InSomeShare s idx h)
  Shuffle-InSomeShare (swap x y xs) idx (inl h) = inr (inl h)
  Shuffle-InSomeShare (swap x y xs) idx (inr (inl h)) = inl h
  Shuffle-InSomeShare (swap x y xs) idx (inr (inr h)) = inr (inr h)
  Shuffle-InSomeShare (next s r) idx h = Shuffle-InSomeShare r idx (Shuffle-InSomeShare s idx h)

  sizes_from :
      (k i : ℕ)
      → i + suc k ≡ num_workers
      → start_idx num_keys num_workers i + sizes (range_from i (suc k)) ≡ num_keys
  unfolding sizes range_from
  sizes_from zero i e = omega (
    arith,
    share_last num_keys num_workers i (omega arith),
    share_ordered num_keys num_workers i (omega arith),
  )
  sizes_from (suc k) i e = omega (
    arith,
    share_next num_keys num_workers i (omega arith),
    share_ordered num_keys num_workers i (omega arith),
    sizes_from k (i + 1) (omega arith),
  )

  in_range : (n i w idx : ℕ) → i ≤ w → w < i + n → InShare idx w → InSomeShare (range_from i n) idx
  unfolding range_from
  in_range zero i w idx lo hi h = absurd (omega arith)
  in_range (suc n) i w idx lo hi h = elim (Bool-cases (i == w)) [
    | inl here ↦ inl (first (ground arith))
    | inr later ↦ inr (in_range n (i + 1) w idx (ground arith) (omega arith) h)
  ]
    where
      first : i ≡ w → InShare idx i
      first e = rw e h

  below : (n i : ℕ) → i + n ≤ num_workers → All (λ w. w < num_workers) (range_from i n)
  unfolding range_from
  below zero i h = tt
  below (suc n) i h = (omega arith, below n (i + 1) (omega arith))

  module _ (order : List ℕ) (s : Shuffle (range_from 0 num_workers) order) where
    pub order-below : All (λ w. w < num_workers) order
    order-below = Shuffle-All (λ w. w < num_workers) s (below num_workers 0 (omega arith))

    -- Together the shares are as long as the keys are many.
    pub order-sizes : 0 < num_workers → sizes order ≡ num_keys
    unfolding start_idx
    order-sizes some_worker = omega (
      arith,
      Shuffle-sizes s,
      ap (λ (n : ℕ). sizes (range_from 0 n)) split,
      sizes_from (num_workers - 1) 0 (omega arith),
    )
      where
        split : num_workers ≡ suc (num_workers - 1)
        split = omega arith

    pub order-InSomeShare : (idx : ℕ) → 0 < num_workers → idx < num_keys → InSomeShare order idx
    order-InSomeShare idx some_worker within =
        let (w, lt, lo, hi) = every_key_shared num_keys num_workers idx some_worker within in
        Shuffle-InSomeShare s idx
          (in_range num_workers 0 w idx (omega arith) (omega arith) (lo, hi))
