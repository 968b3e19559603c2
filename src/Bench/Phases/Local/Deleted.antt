-- ===== src/Bench/Phases/Local/Deleted.antt =====
-- `delete_phase` of src/bin/bench.rs: its workers delete every key, each its share of them.
use kv_rdma_poc.Shared.{
  ℕ, zero, suc, ◌+◌, ◌-◌, ◌%◌, ◌≤◌, ◌<◌, ◌≡◌, ◌≢◌, ◌⊎◌, ◌==◌, refl, ◌∙◌, ap, inl, inr, Bool-cases,
  Bool, List, [], ◌∷◌, none, some, length, ok, Exec, All, arith,
}
use kv_rdma_poc.Shared.Word.{word, add64}
use kv_rdma_poc.Shared.Text.{range_from}
use kv_rdma_poc.Message.{Message}
use kv_rdma_poc.Server.EntryMap.{DashMap, Key}
use kv_rdma_poc.Client
use kv_rdma_poc.Bench.{Args, nth, on_client}
use kv_rdma_poc.Bench.Index.{nth-some, nth-All, index-some, rem_pos}
use kv_rdma_poc.Bench.Phases.Local.Cleared.{
  Clears, Clears-refl, Clears-trans, Clears-iff, without-Clears,
}
use kv_rdma_poc.Bench.Share.Order.{
  Shuffle, InShare, InSomeShare, size, sizes, order-below, order-sizes, order-InSomeShare,
}
use kv_rdma_poc.Bench.Share.{start_idx, end_idx, share_in_range, share_ordered}
use kv_rdma_poc.Bench.Phases.{work, share_of, worker, gather, delete_phase}
use kv_rdma_poc.Bench.Phases.Local.{Shared, IsLocal, without, on_client-delete}

module _ (D : DashMap) (now : ℕ) where
  module _ (keys : List Key) where
    deletes : ℕ → Key → Exec (Shared D now) Message Bool
    deletes i key = on_client i (Client.delete key)

    work_step :
        (c idx : ℕ) (share : List ℕ) (tally : ℕ × ℕ) (key : Key) (w : Shared D now)
        → All (IsLocal D now) w.clients
        → c < length w.clients
        → nth keys idx ≡ some key
        → work (deletes c) keys (idx ∷ share) tally w
          ≡ work (deletes c) keys share (add64 tally.0 1, tally.1) (without D now key w)
    unfolding work deletes
    work_step c idx share tally key w local within e =
        rw (index-some keys idx w e) (rw (on_client-delete D now key c w local within) refl)

    -- A worker's calls all succeed.
    work-Clears :
        (c start n ops errs : ℕ) (w : Shared D now)
        → All (IsLocal D now) w.clients
        → c < length w.clients
        → start + n ≤ length keys
        → ops + n < word
        → (w' : Shared D now) × (work (deletes c) keys (range_from start n) (ops, errs) w
            ≡ (ok (ops + n, errs), w'))
          × Clears D now keys (λ i. (start ≤ i) × (i < start + n)) w w'
    unfolding work range_from
    work-Clears c start zero ops errs w local within some_left small = (
      w,
      ap (λ (x : ℕ). (ok (x, errs), w)) (omega arith),
      Clears-refl D now keys _ w (λ i h. omega arith),
    )
    work-Clears c start (suc n) ops errs w local within some_left small =
        let (key, e) = nth-some keys start (omega arith) in
        let w1 : Shared D now = without D now key w in
        let step = without-Clears D now keys start key w e in
        let (w2, run, rest) =
          work-Clears c (start + 1) n (ops + 1) errs w1 (rw step.clients local)
            (rw step.clients within) (omega arith) (omega arith) in
        (
          w2,
          work_step c start (range_from (start + 1) n) (ops, errs) key w local within e
              ∙ ap (λ (x : ℕ). work (deletes c) keys (range_from (start + 1) n) (x, errs) w1)
                  {y = ops + 1} (omega arith)
              ∙ run
              ∙ ap (λ (x : ℕ). (ok (x, errs), w2)) (omega arith),
          Clears-iff D now keys _ _ w w2 (together start n) (apart start n)
              (Clears-trans D now keys _ _ w w1 w2 step rest),
        )
      where
        together :
            (start n i : ℕ)
            → (i ≡ start) ⊎ ((start + 1 ≤ i) × (i < start + 1 + n))
            → (start ≤ i) × (i < start + suc n)
        together start n i (inl e) = (omega arith, omega arith)
        together start n i (inr h) = (omega arith, omega arith)

        apart :
            (start n i : ℕ)
            → (start ≤ i) × (i < start + suc n)
            → (i ≡ start) ⊎ ((start + 1 ≤ i) × (i < start + 1 + n))
        apart start n i h = elim (Bool-cases (i == start)) [
          | inl here ↦ inl (ground arith)
          | inr later ↦ inr (ground arith, omega arith)
        ]

    -- A worker deletes the keys of its share.
    worker-Clears :
        (args : Args) (i : ℕ) (w : Shared D now)
        → All (IsLocal D now) w.clients
        → 0 < length w.clients
        → i < args.num_workers
        → args.num_keys ≡ length keys
        → length keys < word
        → (w' : Shared D now) × (worker (λ c share. work (deletes c) keys share (0, 0)) args i w
            ≡ (ok (size args.num_keys args.num_workers i, 0), w'))
          × Clears D now keys (λ idx. InShare args.num_keys args.num_workers idx i) w w'
    unfolding worker share_of
    worker-Clears args i w local some_client within same small =
        let lo = start_idx args.num_keys args.num_workers i in
        let hi = end_idx args.num_keys args.num_workers i in
        let ordered = share_ordered args.num_keys args.num_workers i within in
        let inside = share_in_range args.num_keys args.num_workers i within in
        let (w', run, clears) =
          work-Clears (i % length w.clients) lo (hi - lo) 0 0 w local c_within
            (omega (arith, ordered, inside)) (omega (arith, inside)) in
        (
          w',
          rw (rem_pos i (length w.clients) w some_client)
              (rw run (ap (λ (x : ℕ). (ok (x, 0), w')) {x = 0 + (hi - lo)} (omega arith))),
          Clears-iff D now keys _ _ w w' (λ idx h. (h.0, omega (arith, ordered, h.1)))
              (λ idx h. (h.0, omega (arith, ordered, h.1))) clears,
        )
      where
        c_within : i % length w.clients < length w.clients
        c_within = grind arith

    module _ (args : Args) (same : args.num_keys ≡ length keys) (small : length keys < word) where
      one : ℕ → Exec (Shared D now) Message (ℕ × ℕ)
      one = worker (λ c share. work (deletes c) keys share (0, 0)) args

      gather-Clears :
          (order : List ℕ) (total : ℕ) (w : Shared D now)
          → All (IsLocal D now) w.clients
          → 0 < length w.clients
          → All (λ i. i < args.num_workers) order
          → total + sizes args.num_keys args.num_workers order < word
          → (w' : Shared D now) × (gather one order (total, 0) w
              ≡ (ok (total + sizes args.num_keys args.num_workers order, 0), w'))
            × Clears D now keys (InSomeShare args.num_keys args.num_workers order) w w'
      unfolding gather one sizes
      gather-Clears [] total w local some_client within fits =
          (w, ap (λ (x : ℕ). (ok (x, 0), w)) (omega arith), Clears-refl D now keys _ w (λ i h. h))
      gather-Clears (i ∷ order) total w local some_client (within, others) fits =
          let n : ℕ = size args.num_keys args.num_workers i in
          let (w1, run, clears) = worker-Clears args i w local some_client within same small in
          let (w2, rest, clears2) =
            gather-Clears order (total + n) w1 (rw clears.clients local)
              (rw clears.clients some_client) others (omega arith) in
          (
            w2,
            rw run (
                ap (λ (x : ℕ). gather one order (x, 0) w1) {y = total + n} (omega arith)
                ∙ rest
                ∙ ap (λ (x : ℕ). (ok (x, 0), w2)) (omega arith)),
            Clears-trans D now keys _ _ w w1 w2 clears clears2,
          )

  nth_above :
      (P : Key → Type 0) (keys : List Key)
      → ((i : ℕ) (k : Key) → i < length keys → nth keys i ≡ some k → P k)
      → All P keys
  nth_above P [] f = tt
  nth_above P (key ∷ keys) f =
      (f 0 key (omega arith) refl, nth_above P keys (λ i k b e. f (suc i) k (omega arith) e))

  -- With as many keys as the arguments say, fewer than 2 ^ 64, at least one worker and one client,
  -- all clients connected to the server of the process, and the workers run one after another in
  -- any order, the delete phase counts every key as an operation and none as an error; afterwards
  -- no key has an entry, and the entries of all other keys are as they were.
  pub delete_phase_lem :
      (args : Args) (keys : List Key) (order : List ℕ) (w : Shared D now)
      → args.num_keys ≡ length keys
      → length keys < word
      → 0 < args.num_workers
      → Shuffle (range_from 0 args.num_workers) order
      → 0 < length w.clients
      → All (IsLocal D now) w.clients
      → (w' : Shared D now) × (delete_phase args keys order w ≡ (ok (args.num_keys, 0), w'))
        × All (λ key. D.get key w'.remote.cache ≡ none) keys
        × ((k : Key) → All (λ key. key ≢ k) keys → D.get k w'.remote.cache ≡ D.get k w.remote.cache)
  unfolding delete_phase one deletes
  delete_phase_lem args keys order w same small some_worker shuffled some_client local =
      let all = order-sizes args.num_keys args.num_workers order shuffled some_worker in
      let (w', run, clears) =
        gather-Clears keys args same small order 0 w local some_client
          (order-below args.num_keys args.num_workers order shuffled) (omega (arith, all)) in
      (
        w',
        run ∙ ap (λ (x : ℕ). (ok (x, 0), w')) (omega (arith, all)),
        nth_above _ keys (λ i k b e.
            clears.cleared i k
              (order-InSomeShare args.num_keys args.num_workers order shuffled i some_worker
                (omega arith))
              e),
        λ k distinct. clears.others k (λ i a e. nth-All (λ key. key ≢ k) keys i e distinct refl),
      )
