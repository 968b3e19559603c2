-- ===== src/Prompt/Errors.antt =====
-- What fails at the prompt of src/bin/client.rs is printed, and the prompt goes on.
use kv_rdma_poc.Shared.{
  refl, ℕ, ◌≢◌, Bool, true, false, ◌||◌, List, [], ◌∷◌, ◌++◌, Outcome, ok, err, panic, Exec, pure,
  and_then, ◌>>◌, if◌then◌else◌, map, Option-cases, inl, inr,
}
use kv_rdma_poc.Shared.Text.{codes}
use kv_rdma_poc.Shared.Parse.{split_whitespace, trim}
use kv_rdma_poc.Message.{Message}
use kv_rdma_poc.Client
use kv_rdma_poc.Prompt.{
  Utf8, Output, text, debug, mark, Terminal, say, on_process, reported, show_value, is_word,
  cmd_get, cmd_put, cmd_delete, show_stats, get_line, put_line, delete_line, run_parts, run_line,
  prompt,
}

module _ {R : Type 0} where
  -- A computation that may panic and returns no error.
  abbrev NeverFails : {A : Type 0} → Exec (Terminal R) Message A → Type 0
  NeverFails m = (t : Terminal R) (e : Message) → (m t).0 ≢ err e

  then-NeverFails :
      {A B : Type 0} (x : Outcome Message A × Terminal R) (k : A → Exec (Terminal R) Message B)
      → ((e : Message) → x.0 ≢ err e)
      → ((a : A) → NeverFails (k a))
      → (e : Message) → (and_then x k).0 ≢ err e
  then-NeverFails (ok a, t) k h hk e = hk a t e
  then-NeverFails (err e', t) k h hk e = λ q. h e' refl
  then-NeverFails (panic, t) k h hk e = λ q. cc

  if-NeverFails :
      {A : Type 0} (b : Bool) (m n : Exec (Terminal R) Message A)
      → NeverFails m
      → NeverFails n
      → NeverFails (if b then m else n)
  if-NeverFails true m n hm hn = hm
  if-NeverFails false m n hm hn = hn

  reported-NeverFails :
      {A : Type 0} (k : A → Exec (Terminal R) Message (Unit {0}))
      (x : Outcome Message A × Terminal R)
      → ((a : A) → NeverFails (k a))
      → (e : Message) → (reported k x).0 ≢ err e
  reported-NeverFails k (ok a, t) h e = h a t e
  reported-NeverFails k (err e', t) h e = λ q. cc
  reported-NeverFails k (panic, t) h e = λ q. cc

  say-NeverFails : (o : Output) → NeverFails (say o)
  say-NeverFails o t e q = cc

  module _ (U : Utf8) where
    show_value-NeverFails : (value : List ℕ) → NeverFails (show_value U value)
    show_value-NeverFails value t e = elim (Option-cases (U.from_utf8 value)) [
      | inl n ↦ rw (n, show_value) (say-NeverFails (debug value) t e)
      | inr (s, n) ↦ rw (n, show_value) (say-NeverFails (text s) t e)
    ]

    go_on-NeverFails :
        (m : Exec (Terminal R) Message (Unit {0})) → NeverFails m → NeverFails (m >> pure true)
    go_on-NeverFails m h t e = then-NeverFails (m t) (λ _. pure true) (h t) (λ _ t e q. cc) e

    cmd_get-NeverFails : (key : List ℕ) → NeverFails (cmd_get U key)
    unfolding cmd_get
    cmd_get-NeverFails key t e =
        reported-NeverFails (show_value U) (on_process (Client.get (U.as_bytes key)) t)
          show_value-NeverFails e

    cmd_put-NeverFails : (key value : List ℕ) (ttl : ℕ) → NeverFails (cmd_put U key value ttl)
    unfolding cmd_put
    cmd_put-NeverFails key value ttl t e =
        reported-NeverFails (λ _. say (text (codes "OK")))
          (on_process (Client.put (U.as_bytes key) (U.as_bytes value) ttl) t)
          (λ _. say-NeverFails (text (codes "OK"))) e

    cmd_delete-NeverFails : (key : List ℕ) → NeverFails (cmd_delete U key)
    unfolding cmd_delete
    cmd_delete-NeverFails key t e =
        reported-NeverFails _ (on_process (Client.delete (U.as_bytes key)) t) (λ existed t e q. cc)
          e

    get_line-NeverFails : (parts : List (List ℕ)) → NeverFails (get_line U parts)
    get_line-NeverFails [] = λ t e q. cc
    get_line-NeverFails (key ∷ parts) = cmd_get-NeverFails key

    put_line-NeverFails : (parts : List (List ℕ)) → NeverFails (put_line U parts)
    put_line-NeverFails [] = λ t e q. cc
    put_line-NeverFails (key ∷ []) = λ t e q. cc
    put_line-NeverFails (key ∷ value ∷ parts) = cmd_put-NeverFails key value 0

    delete_line-NeverFails : (parts : List (List ℕ)) → NeverFails (delete_line U parts)
    delete_line-NeverFails [] = λ t e q. cc
    delete_line-NeverFails (key ∷ parts) = cmd_delete-NeverFails key

    show_stats-NeverFails : NeverFails (show_stats {R = R} U)
    unfolding show_stats
    show_stats-NeverFails t e q = cc

    run_parts-NeverFails : (parts : List (List ℕ)) → NeverFails (run_parts U parts)
    unfolding run_parts
    run_parts-NeverFails [] = λ t e q. cc
    run_parts-NeverFails (w ∷ parts) =
        if-NeverFails (is_word "get" w) _ _
          (go_on-NeverFails (get_line U parts) (get_line-NeverFails parts))
          (if-NeverFails (is_word "put" w) _ _
            (go_on-NeverFails (put_line U parts) (put_line-NeverFails parts))
            (if-NeverFails (is_word "delete" w || is_word "del" w) _ _
              (go_on-NeverFails (delete_line U parts) (delete_line-NeverFails parts))
              (if-NeverFails (is_word "stats" w) _ _
                (go_on-NeverFails (show_stats U) show_stats-NeverFails)
                (if-NeverFails (is_word "quit" w || is_word "exit" w || is_word "q" w) _ _
                  (λ t e q. cc) (λ t e q. cc)))))

    run_line-NeverFails : (line : List ℕ) → NeverFails (run_line U line)
    unfolding run_line
    run_line-NeverFails [] = λ t e q. cc
    run_line-NeverFails (c ∷ line) = run_parts-NeverFails (split_whitespace (trim (c ∷ line)))

    -- As long as the lines can be read and the output can be written, no error ends the prompt,
    -- whatever the lines are and whatever the server answers.
    pub prompt-NeverFails : (lines : List (List ℕ)) → NeverFails (prompt U (map ok lines))
    unfolding prompt
    prompt-NeverFails [] = λ t e q. cc
    prompt-NeverFails (line ∷ lines) = λ t.
        then-NeverFails (run_line U line (record t { printed = t.printed ++ mark ∷ [] })) _
          (run_line-NeverFails line (record t { printed = t.printed ++ mark ∷ [] }))
          (λ more. if-NeverFails more _ _ (prompt-NeverFails lines) (λ t e q. cc))
