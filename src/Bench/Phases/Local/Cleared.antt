-- ===== src/Bench/Phases/Local/Cleared.antt =====
-- Keys that go from the server of src/bin/bench.rs, and all others that stay.
use kv_rdma_poc.Shared.{ℕ, ◌≡◌, ◌≢◌, ◌⊎◌, refl, sym, ◌∙◌, ap, inl, inr, List, none, some}
use kv_rdma_poc.Server.EntryMap.{DashMap, Key}
use kv_rdma_poc.Server.Stored.{Key-discrete}
use kv_rdma_poc.Server.Delete.{after_delete}
use kv_rdma_poc.Bench.{nth}
use kv_rdma_poc.Bench.Phases.Local.{Shared, entry, without}

module _ (D : DashMap) (now : ℕ) where
  abbrev pub Gone : Shared D now → Key → Type 0
  Gone w key = entry D now w key ≡ none

  without-Gone : (key : Key) (w : Shared D now) → Gone (without D now key w) key
  unfolding without after_delete
  without-Gone key w = D.get-remove_self key w.remote.cache

  without-Gone_old : (key k : Key) (w : Shared D now) → Gone w k → Gone (without D now key w) k
  unfolding without after_delete
  without-Gone_old key k w gone = elim (Key-discrete key k) [
    | yes same ↦ rw (sym same) (D.get-remove_self key w.remote.cache)
    | no other ↦ D.get-remove_ne key k w.remote.cache other ∙ gone
  ]

  without-others :
      (key k : Key) (w : Shared D now)
      → key ≢ k
      → entry D now (without D now key w) k ≡ entry D now w k
  unfolding without after_delete
  without-others key k w other = D.get-remove_ne key k w.remote.cache other

  -- From `w` to `w'` the clients stay, the keys at the indices in `P` go, and every other key stays
  -- as it is, gone or not.
  pub record Clears (keys : List Key) (P : ℕ → Type 0) (w w' : Shared D now) : Type 0 where
    pub clients : w'.clients ≡ w.clients
    pub gone : (k : Key) → Gone w k → Gone w' k
    pub cleared : (i : ℕ) (k : Key) → P i → nth keys i ≡ some k → Gone w' k
    pub others :
        (k : Key) → ((i : ℕ) → P i → nth keys i ≢ some k) → entry D now w' k ≡ entry D now w k

  module _ (keys : List Key) where
    pub Clears-refl : (P : ℕ → Type 0) (w : Shared D now) → ((i : ℕ) → P i → ⊥) → Clears keys P w w
    Clears-refl P w nothing = record {
      clients = refl;
      gone = λ k g. g;
      cleared = λ i k p e. absurd (nothing i p);
      others = λ k f. refl;
    }

    pub Clears-trans :
        (P Q : ℕ → Type 0) (w w' w'' : Shared D now)
        → Clears keys P w w'
        → Clears keys Q w' w''
        → Clears keys (λ i. P i ⊎ Q i) w w''
    Clears-trans P Q w w' w'' p q = record {
      clients = q.clients ∙ p.clients;
      gone = λ k g. q.gone k (p.gone k g);
      cleared =
          λ i k h e. elim h [ inl a ↦ q.gone k (p.cleared i k a e) | inr a ↦ q.cleared i k a e ];
      others = λ k f. q.others k (λ i a. f i (inr a)) ∙ p.others k (λ i a. f i (inl a));
    }

    -- The same indices, told in another way.
    pub Clears-iff :
        (P Q : ℕ → Type 0) (w w' : Shared D now)
        → ((i : ℕ) → P i → Q i)
        → ((i : ℕ) → Q i → P i)
        → Clears keys P w w'
        → Clears keys Q w w'
    Clears-iff P Q w w' to from c = record {
      clients = c.clients;
      gone = c.gone;
      cleared = λ i k h e. c.cleared i k (from i h) e;
      others = λ k f. c.others k (λ i h. f i (to i h));
    }

    pub without-Clears :
        (idx : ℕ) (key : Key) (w : Shared D now)
        → nth keys idx ≡ some key
        → Clears keys (λ i. i ≡ idx) w (without D now key w)
    unfolding without
    without-Clears idx key w e = record {
      clients = refl;
      gone = λ k g. without-Gone_old key k w g;
      cleared = λ i k same e'.
          let at : some k ≡ some key = sym e' ∙ ap (nth keys) same ∙ e in
          let eq : key ≡ k = cc in rw (sym eq) (without-Gone key w);
      others = λ k f. without-others key k w (λ same. f idx refl (e ∙ ap some same));
    }
