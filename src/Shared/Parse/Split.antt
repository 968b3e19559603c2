-- ===== src/Shared/Parse/Split.antt =====
-- Texts that are put together are taken apart again.
use Prim.Native.Nat.{ℕ}
use mathlib.Core.Logic.{◌≢◌}
use mathlib.Core.Path.{◌≡◌, refl}
use mathlib.Core.Bool.{Bool, true, false}
use mathlib.Core.Option.{none, some}
use mathlib.Core.List.{List, [], ◌∷◌, ◌++◌}
use native.Mathlib.Omega.{arith}
use kv_rdma_poc.Shared.Lists.{All}
use kv_rdma_poc.Shared.Parse.{is_white, trim_end, trim, split, split_once}

pub All-append {ℓ κ} :
    {A : Type ℓ} (P : A → Type κ) (xs ys : List A) → All P xs → All P ys → All P (xs ++ ys)
All-append P [] ys p q = q
All-append P (x ∷ xs) ys p q = (p.0, All-append P xs ys p.1 q)

pub All-map {ℓ κ μ} :
    {A : Type ℓ} (P : A → Type κ) (Q : A → Type μ) (xs : List A)
    → ((x : A) → P x → Q x)
    → All P xs
    → All Q xs
All-map P Q [] h p = tt
All-map P Q (x ∷ xs) h p = (h x p.0, All-map P Q xs h p.1)

abbrev Fails : (ℕ → Bool) → ℕ → Type 0
Fails at c = at c ≡ false

-- Without a white character, only what follows is trimmed.
trim_end-append :
    (s : List ℕ) (w : ℕ) → All (Fails is_white) s → is_white w ≡ true → trim_end (s ++ w ∷ []) ≡ s
unfolding trim_end
trim_end-append [] w h white = rw white refl
trim_end-append (c ∷ s) w h white = rw (h.0, trim_end-append s w h.1 white) refl

pub trim-append :
    (s : List ℕ) (w : ℕ) → All (Fails is_white) s → is_white w ≡ true → trim (s ++ w ∷ []) ≡ s
unfolding trim
trim-append [] w h white = rw white refl
trim-append (c ∷ s) w h white = rw (h.0) (trim_end-append (c ∷ s) w h white)

trim_end-same : (s : List ℕ) → All (Fails is_white) s → trim_end s ≡ s
unfolding trim_end
trim_end-same [] h = refl
trim_end-same (c ∷ s) h = rw (h.0, trim_end-same s h.1) refl

pub trim-same : (s : List ℕ) → All (Fails is_white) s → trim s ≡ s
unfolding trim
trim-same [] h = refl
trim-same (c ∷ s) h = rw (h.0) (trim_end-same (c ∷ s) h)

pub split-one : (at : ℕ → Bool) (s : List ℕ) → All (Fails at) s → split at s ≡ s ∷ []
unfolding split
split-one at [] h = refl
split-one at (c ∷ s) h = rw (h.0, split-one at s h.1) refl

pub split-append :
    (at : ℕ → Bool) (s : List ℕ) (mark : ℕ) (rest : List ℕ)
    → All (Fails at) s
    → at mark ≡ true
    → split at (s ++ mark ∷ rest) ≡ s ∷ split at rest
unfolding split
split-append at [] mark rest h m = rw m refl
split-append at (c ∷ s) mark rest h m = rw (h.0, split-append at s mark rest h.1 m) refl

pub split_once-none : (mark : ℕ) (s : List ℕ) → All (λ c. c ≢ mark) s → split_once mark s ≡ none
unfolding split_once
split_once-none mark [] h = refl
split_once-none mark (c ∷ s) h = ground (arith, h.0, split_once-none mark s h.1)

pub split_once-append :
    (mark : ℕ) (s rest : List ℕ)
    → All (λ c. c ≢ mark) s
    → split_once mark (s ++ mark ∷ rest) ≡ some (s, rest)
unfolding split_once
split_once-append mark [] rest h = ground arith
split_once-append mark (c ∷ s) rest h = ground (arith, h.0, split_once-append mark s rest h.1)
