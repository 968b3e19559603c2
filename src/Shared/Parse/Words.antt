-- ===== src/Shared/Parse/Words.antt =====
-- The words of a line.
use mathlib.Core.Path.{◌≡◌, refl, sym, ap, ◌∙◌}
use mathlib.Core.Logic.{◌≢◌, inl, inr}
use mathlib.Core.Bool.{true, false}
use mathlib.Core.List.{List, [], ◌∷◌, ◌++◌}
use Prim.Native.Nat.{ℕ}
use kv_rdma_poc.Shared.Tests.{Bool-cases}
use kv_rdma_poc.Shared.Lists.{All}
use kv_rdma_poc.Shared.Parse.{
  is_white, is_nil, onto_first, split, without_nil, split_whitespace, trim_start, trim_end, trim,
}
use kv_rdma_poc.Shared.Parse.Split.{split-append}

-- The same first piece, and the same words after it.
abbrev SameWords : List (List ℕ) → List (List ℕ) → Type 0
SameWords [] [] = Unit
SameWords (w ∷ ws) (v ∷ vs) = (w ≡ v) × (without_nil ws ≡ without_nil vs)
SameWords [] (v ∷ vs) = ⊥
SameWords (w ∷ ws) [] = ⊥

SameWords-refl : (ws : List (List ℕ)) → SameWords ws ws
SameWords-refl [] = tt
SameWords-refl (w ∷ ws) = (refl, refl)

without_nil-SameWords : (ws vs : List (List ℕ)) → SameWords ws vs → without_nil ws ≡ without_nil vs
unfolding without_nil
without_nil-SameWords [] [] s = refl
without_nil-SameWords [] (v ∷ vs) s = absurd s
without_nil-SameWords (w ∷ ws) [] s = absurd s
without_nil-SameWords (w ∷ ws) (v ∷ vs) (e, r) = rw (e, r) refl

onto_first-SameWords :
    (c : ℕ) (ws vs : List (List ℕ))
    → SameWords ws vs
    → SameWords (onto_first c ws) (onto_first c vs)
onto_first-SameWords c [] [] s = (refl, refl)
onto_first-SameWords c [] (v ∷ vs) s = absurd s
onto_first-SameWords c (w ∷ ws) [] s = absurd s
onto_first-SameWords c (w ∷ ws) (v ∷ vs) (e, r) = (ap (λ (x : List ℕ). c ∷ x) e, r)

is_nil-eq : (s : List ℕ) → is_nil s ≡ true → s ≡ []
is_nil-eq [] e = refl
is_nil-eq (c ∷ s) e = absurd (cc e)

split-trim_end : (s : List ℕ) → SameWords (split is_white (trim_end s)) (split is_white s)
unfolding trim_end split without_nil
split-trim_end [] = (refl, refl)
split-trim_end (c ∷ s) =
    let r = split-trim_end s in
    let words = without_nil-SameWords (split is_white (trim_end s)) (split is_white s) r in
    elim (Bool-cases (is_white c)) [
      | inl white ↦ elim (Bool-cases (is_nil (trim_end s))) [
        | inl gone ↦
            rw (white, gone)
              (
                refl,
                sym (
                      ap (λ (t : List ℕ). without_nil (split is_white t))
                        (is_nil-eq (trim_end s) gone))
                    ∙ words,
              )
        | inr more ↦ rw (white, more) (rw (white, split) (refl, words))
      ]
      | inr black ↦ rw (black) (
          rw (black, split)
            (onto_first-SameWords c (split is_white (trim_end s)) (split is_white s) r))
    ]

split_whitespace-trim_start : (s : List ℕ) → split_whitespace (trim_start s) ≡ split_whitespace s
unfolding split_whitespace trim_start split without_nil
split_whitespace-trim_start [] = refl
split_whitespace-trim_start (c ∷ s) = elim (Bool-cases (is_white c)) [
  | inl white ↦ rw white (split_whitespace-trim_start s)
  | inr black ↦ rw black (rw (black, split) refl)
]

-- To trim a line changes no word.
pub split_whitespace-trim : (s : List ℕ) → split_whitespace (trim s) ≡ split_whitespace s
unfolding trim split_whitespace
split_whitespace-trim s =
    without_nil-SameWords (split is_white (trim_end (trim_start s))) (split is_white (trim_start s))
      (split-trim_end (trim_start s))
    ∙ split_whitespace-trim_start s

-- A word of a line: it is not empty, and has no white character.
abbrev pub IsWord : List ℕ → Type 0
IsWord w = (w ≢ []) × All (λ c. is_white c ≡ false) w

abbrev pub print_words : List ℕ → List (List ℕ) → List ℕ
print_words w [] = w ++ 10 ∷ []
print_words w (v ∷ ws) = w ++ 32 ∷ print_words v ws

without_nil-word :
    (w : List ℕ) (ws : List (List ℕ)) → IsWord w → without_nil (w ∷ ws) ≡ w ∷ without_nil ws
unfolding without_nil
without_nil-word [] ws h = absurd (h.0 refl)
without_nil-word (c ∷ w) ws h = refl

-- The words of a line with spaces between them and a newline at the end.
pub split_whitespace-print_words :
    (w : List ℕ) (ws : List (List ℕ))
    → All IsWord (w ∷ ws)
    → split_whitespace (print_words w ws) ≡ w ∷ ws
unfolding split_whitespace
split_whitespace-print_words w [] h =
    rw (split-append is_white w 10 [] h.0.1 (unfold is_white in refl))
      (without_nil-word w (split is_white []) h.0 ∙ (unfold split without_nil in refl))
split_whitespace-print_words w (v ∷ ws) h =
    rw (split-append is_white w 32 (print_words v ws) h.0.1 (unfold is_white in refl)) (
      without_nil-word w (split is_white (print_words v ws)) h.0
      ∙ ap (λ (x : List (List ℕ)). w ∷ x) (split_whitespace-print_words v ws h.1))
