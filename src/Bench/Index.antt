-- ===== src/Bench/Index.antt =====
-- What a list of src/bin/bench.rs holds at an index.
use kv_rdma_poc.Shared.{
  ℕ, zero, suc, ◌%◌, ◌/◌, ◌<◌, ◌≡◌, refl, subst, List, [], ◌∷◌, some, length, ok, All, arith,
}
use kv_rdma_poc.Bench.{nth, set_nth, index, rem, div}

module _ {A : Type 0} where
  pub set_nth-nth : (xs : List A) (i : ℕ) (x : A) → nth xs i ≡ some x → set_nth i x xs ≡ xs
  set_nth-nth [] i x e = refl
  set_nth-nth (y ∷ xs) zero x e = cc
  set_nth-nth (y ∷ xs) (suc i) x e = rw (set_nth-nth xs i x e)

  pub length-set_nth : (xs : List A) (i : ℕ) (x : A) → length (set_nth i x xs) ≡ length xs
  length-set_nth [] i x = refl
  length-set_nth (y ∷ xs) zero x = refl
  length-set_nth (y ∷ xs) (suc i) x = omega (arith, length-set_nth xs i x)

  pub nth-some : (xs : List A) (i : ℕ) → i < length xs → (x : A) × (nth xs i ≡ some x)
  nth-some [] i h = absurd (omega arith)
  nth-some (x ∷ xs) zero h = (x, refl)
  nth-some (x ∷ xs) (suc i) h = nth-some xs i (omega arith)

  pub nth-All : (P : A → Type 0) (xs : List A) (i : ℕ) {x : A} → nth xs i ≡ some x → All P xs → P x
  nth-All P [] i e h = cc
  nth-All P (x ∷ xs) zero e h = subst P (cc) h.0
  nth-All P (x ∷ xs) (suc i) e h = nth-All P xs i e h.1

  pub All-set_nth :
      (P : A → Type 0) (xs : List A) (i : ℕ) (x : A) → P x → All P xs → All P (set_nth i x xs)
  All-set_nth P [] i x p h = tt
  All-set_nth P (y ∷ xs) zero x p h = (p, h.1)
  All-set_nth P (y ∷ xs) (suc i) x p h = (h.0, All-set_nth P xs i x p h.1)

  pub index-some :
      {S E : Type 0} (xs : List A) (i : ℕ) {x : A} (s : S)
      → nth xs i ≡ some x
      → index {E = E} xs i s ≡ (ok x, s)
  index-some xs i s e = rw (e, index) refl

pub rem_pos : {S E : Type 0} (a b : ℕ) (s : S) → 0 < b → rem {E = E} a b s ≡ (ok (a % b), s)
rem_pos a zero s h = absurd (omega arith)
rem_pos a (suc b) s h = refl

pub div_pos : {S E : Type 0} (a b : ℕ) (s : S) → 0 < b → div {E = E} a b s ≡ (ok (a / b), s)
div_pos a zero s h = absurd (omega arith)
div_pos a (suc b) s h = refl
