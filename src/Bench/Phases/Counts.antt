-- ===== src/Bench/Phases/Counts.antt =====
-- The reads of src/bin/bench.rs, counted: how many they are, and that none of them is an error where
-- the clients answer all of them.
pub mod Workers
use kv_rdma_poc.Shared.{
  ℕ, zero, suc, ◌+◌, ◌*◌, ◌%◌, ◌≤◌, ◌<◌, ◌≡◌, ◌≢◌, refl, ap, ◌∙◌, List, [], ◌∷◌, Outcome, ok, err,
  panic, Exec, some, Option-cases, inl, inr, length, All, arith,
}
use kv_rdma_poc.Shared.Word.{word, add64}
use kv_rdma_poc.Shared.Text.{range_from}
use kv_rdma_poc.Message.{Message}
use kv_rdma_poc.Client
use kv_rdma_poc.Client.{Process}
use kv_rdma_poc.Bench.{Args, World, nth, on_client}
use kv_rdma_poc.Bench.Index.{length-set_nth, nth-some, index-some, rem_pos}
use kv_rdma_poc.Bench.Share.{start_idx, share_in_range, share_ordered}
use kv_rdma_poc.Bench.Share.Order.{Shuffle, size, sizes, order-below, order-sizes}
use kv_rdma_poc.Bench.Phases.{count, work, repeat_work, share_of, worker, gather, read_phase}

abbrev calls : ℕ × ℕ → ℕ
calls t = t.0 + t.1

length-on_client :
    {R A : Type 0} (i : ℕ) (m : Exec (Process R) Message A) (w : World R)
    → length (on_client i m w).1.clients ≡ length w.clients
length-on_client i m w = elim (Option-cases (nth w.clients i)) [
  | inl e ↦ rw (e, on_client) refl
  | inr (c, e) ↦ rw (e, on_client) (length-set_nth w.clients i _)
]

-- `Good` holds in the states that the calls are made in, and `Clean` says that none is to fail.
module _ {R : Type 0} (Good : World R → Type 0) (Clean : Type 0) where
  -- The computation has counted `n` calls, `errs` of them errors where none is to fail, and has as
  -- many clients as `w`.
  pub record Counts (m : Outcome Message (ℕ × ℕ) × World R) (w : World R) (n errs : ℕ)
      : Type 0 where
    pub tally : ℕ × ℕ
    pub after : World R
    pub run : m ≡ (ok tally, after)
    pub sum : calls tally ≡ n
    pub errors : Clean → tally.1 ≡ errs
    pub good : Good after
    pub clients : length after.clients ≡ length w.clients

  -- What a get of one of the keys does.
  abbrev pub IsAnswered : List (List ℕ) → Type 0
  IsAnswered keys =
      (i n : ℕ) (key : List ℕ) (w : World R)
      → i < length w.clients
      → nth keys n ≡ some key
      → Good w
      → ((on_client i (Client.get key) w).0 ≢ panic)
        × Good (on_client i (Client.get key) w).1
        × (Clean → (e : Message) → (on_client i (Client.get key) w).0 ≢ err e)

  module _ {m m' : Outcome Message (ℕ × ℕ) × World R} {n n' errs errs' : ℕ} (w w' : World R) where
    -- Counts of what follows, from the counts of the rest.
    Counts-as :
        Counts m w n errs
        → m' ≡ m
        → n ≡ n'
        → (Clean → errs ≡ errs')
        → length w.clients ≡ length w'.clients
        → Counts m' w' n' errs'
    Counts-as a run many no_more same = record {
      tally = a.tally;
      after = a.after;
      run = run ∙ a.run;
      sum = a.sum ∙ many;
      errors = λ clean. a.errors clean ∙ no_more clean;
      good = a.good;
      clients = a.clients ∙ same;
    }

  Counts-none : (n : ℕ) (t : ℕ × ℕ) (w : World R) → Good w → calls t ≡ n → Counts (ok t, w) w n t.1
  Counts-none n t w good e = record {
    tally = t;
    after = w;
    run = refl;
    sum = e;
    errors = λ clean. refl;
    good = good;
    clients = refl;
  }

  one_call :
      (t : ℕ × ℕ) (w : World R) (x : Outcome Message (List ℕ) × World R)
      → calls t + 1 < word
      → x.0 ≢ panic
      → Good x.1
      → (Clean → (e : Message) → x.0 ≢ err e)
      → length x.1.clients ≡ length w.clients
      → Counts (count t x) w (calls t + 1) t.1
  one_call t w (ok v, w') fits safe good no_err same = record {
    tally = (add64 t.0 1, t.1);
    after = w';
    run = refl;
    sum = omega arith;
    errors = λ clean. refl;
    good = good;
    clients = same;
  }
  one_call t w (err e, w') fits safe good no_err same = record {
    tally = (t.0, add64 t.1 1);
    after = w';
    run = refl;
    sum = omega arith;
    errors = λ clean. absurd (no_err clean e refl);
    good = good;
    clients = same;
  }
  one_call t w (panic, w') fits safe good no_err same = absurd (safe refl)

  module _ (keys : List (List ℕ)) (answered : IsAnswered keys) where
    unfoldable reads : ℕ → List ℕ → Exec (World R) Message (List ℕ)
    reads i key = on_client i (Client.get key)

    work-Counts :
        (c start n : ℕ) (t : ℕ × ℕ) (w : World R)
        → c < length w.clients
        → Good w
        → start + n ≤ length keys
        → calls t + n < word
        → Counts (work (reads c) keys (range_from start n) t w) w (calls t + n) t.1
    unfolding work range_from
    work-Counts c start zero t w within good inside fits = Counts-none _ t w good (omega arith)
    work-Counts c start (suc n) t w within good inside fits =
        let (key, e) = nth-some keys start (omega arith) in
        let (no_panic, good', no_err) = answered c start key w within e good in
        let same = length-on_client c (Client.get key) w in
        let a =
          one_call t w (reads c key w) (omega arith) (unfold reads in no_panic)
            (unfold reads in good') (unfold reads in no_err) (unfold reads in same) in
        let b =
          work-Counts c (start + 1) n a.tally a.after (omega (arith, a.clients)) a.good
            (omega arith) (omega (arith, a.sum)) in
        Counts-as a.after w b (rw (index-some keys start w e) (rw a.run refl))
          (omega (arith, a.sum)) a.errors a.clients

    repeat_work-Counts :
        (c start n r : ℕ) (t : ℕ × ℕ) (w : World R)
        → c < length w.clients
        → Good w
        → start + n ≤ length keys
        → calls t + r * n < word
        → Counts (repeat_work (reads c) keys (range_from start n) r t w) w (calls t + r * n) t.1
    unfolding repeat_work
    repeat_work-Counts c start n zero t w within good inside fits =
        Counts-none _ t w good (omega arith)
    repeat_work-Counts c start n (suc r) t w within good inside fits =
        let split : suc r * n ≡ n + r * n = grind arith in
        let a = work-Counts c start n t w within good inside (omega arith) in
        let b =
          repeat_work-Counts c start n r a.tally a.after (omega (arith, a.clients)) a.good inside
            (omega (arith, a.sum)) in
        Counts-as a.after w b (rw a.run refl) (omega (arith, a.sum)) a.errors a.clients
