-- ===== src/Prompt/Stops.antt =====
-- When the prompt of src/bin/client.rs ends.
use kv_rdma_poc.Shared.{
  ℕ, refl, ◌≡◌, ◌⊎◌, inl, inr, Bool, true, false, List, [], ◌∷◌, ◌++◌, Outcome, ok, err, panic,
  Exec, and_then, if◌then◌else◌,
}
use kv_rdma_poc.Shared.Text.{codes}
use kv_rdma_poc.Shared.Parse.{split_whitespace, trim}
use kv_rdma_poc.Message.{Message}
use kv_rdma_poc.Prompt.{Utf8, mark, text, Terminal, run_parts, run_line, prompt}

-- A word that ends the prompt.
abbrev pub IsQuit : List ℕ → Type 0
IsQuit w = (w ≡ codes "quit") ⊎ (w ≡ codes "exit") ⊎ (w ≡ codes "q")

-- The end of the input, or a line that starts with a word that ends the prompt.
abbrev pub IsLast : List ℕ → Type 0
IsLast line =
    (line ≡ [])
    ⊎ ((w : List ℕ) × (parts : List (List ℕ)) × (split_whitespace (trim line) ≡ w ∷ parts)
        × IsQuit w)

and_then-cong :
    {S E A B : Type 0} (x : Outcome E A × S) (k k' : A → Exec S E B)
    → ((a : A) (s : S) → k a s ≡ k' a s)
    → and_then x k ≡ and_then x k'
and_then-cong (ok a, s) k k' h = h a s
and_then-cong (err e, s) k k' h = refl
and_then-cong (panic, s) k k' h = refl

if-cong :
    {S E A : Type 0} (b : Bool) (m m' n : Exec S E A) (s : S)
    → m s ≡ m' s
    → (if b then m else n) s ≡ (if b then m' else n) s
if-cong true m m' n s h = h
if-cong false m m' n s h = refl

module _ {R : Type 0} where
  -- The line ends the prompt: what it answers is false.
  abbrev Ends : Exec (Terminal R) Message Bool → Type 0
  Ends m = (t : Terminal R) → (t' : Terminal R) × (m t ≡ (ok false, t'))

  abbrev bye : Terminal R → Terminal R
  bye t = record t { printed = t.printed ++ text (codes "Bye!") ∷ [] }

  module _ (U : Utf8) where
    run_parts-Ends :
        (w : List ℕ) (parts : List (List ℕ)) → IsQuit w → Ends (run_parts U (w ∷ parts))
    unfolding run_parts
    run_parts-Ends w parts (inl e) t = (bye t, rw e refl)
    run_parts-Ends w parts (inr (inl e)) t = (bye t, rw e refl)
    run_parts-Ends w parts (inr (inr e)) t = (bye t, rw e refl)

    run_line-Ends : (line : List ℕ) → IsLast line → Ends (run_line U line)
    unfolding run_line
    run_line-Ends [] last t = (t, refl)
    run_line-Ends (c ∷ line) (inl e) t = cc
    run_line-Ends (c ∷ line) (inr (w, parts, split, quit)) t =
        rw split (run_parts-Ends w parts quit t)

    -- The prompt reads no line after one that is the end of the input, or that starts with quit,
    -- exit or q: whatever the lines before do, and whatever stands after it, it ends the same.
    pub prompt_stops :
        (inputs rest : List (Outcome Message (List ℕ))) (line : List ℕ) (t : Terminal R)
        → IsLast line
        → prompt U (inputs ++ ok line ∷ rest) t ≡ prompt U (inputs ++ ok line ∷ []) t
    unfolding prompt
    prompt_stops [] rest line t last =
        let (t', e) = run_line-Ends line last (record t { printed = t.printed ++ mark ∷ [] }) in
        rw e refl
    prompt_stops (ok l ∷ inputs) rest line t last =
        and_then-cong (run_line U l (record t { printed = t.printed ++ mark ∷ [] })) _ _
          (λ more s. if-cong more _ _ _ s (prompt_stops inputs rest line s last))
    prompt_stops (err e ∷ inputs) rest line t last = refl
    prompt_stops (panic ∷ inputs) rest line t last = refl
