-- ===== src/Bench/Phases/Local/Sampled.antt =====
-- The warmup and the latency analysis of src/bin/bench.rs with the server in the same process.
use kv_rdma_poc.Shared.{
  ℕ, ◌+◌, ◌*◌, ◌/◌, ◌%◌, ◌^◌, ◌<◌, ◌≡◌, refl, sym, subst, ap, ◌∙◌, List, [], ◌∷◌, true, length, ok,
  All, Outcome, Option, Exec, arith, for_each, Bool-cases, inl, inr, map, ◌==◌, length-map,
}
use kv_rdma_poc.Shared.Text.{range_from, length-range_from}
use kv_rdma_poc.Message.{Message}
use kv_rdma_poc.Transport.{TransportConfig, RdmaTransportTrait}
use kv_rdma_poc.Transport.Mock.Copies.{Delivers}
use kv_rdma_poc.Server.EntryMap.{DashMap, Key}
use kv_rdma_poc.Server.{KvCacheServer}
use kv_rdma_poc.Server.Consistent.{IsConsistent}
use kv_rdma_poc.Client.{Process}
use kv_rdma_poc.Client.Get.Local.{host}
use kv_rdma_poc.Client.Get.Again.{IsReader, get_again}
use kv_rdma_poc.Bench.{Args}
use kv_rdma_poc.Bench.Index.{nth-some, index-some, rem_pos, div_pos}
use kv_rdma_poc.Bench.Latency.{Statistics}
use kv_rdma_poc.Bench.Latency.Order.{Summarises, statistics_ordered}
use kv_rdma_poc.Bench.Phases.{warmup_task, warmup_phase, latency_analysis, get_samples, task}
use kv_rdma_poc.Bench.Phases.Local.{Shared, serving}
use kv_rdma_poc.Bench.Phases.Local.Started.{in_process, HasBuffer, HasApart, create_client-IsReader}
use kv_rdma_poc.Bench.Phases.Local.Stored.{registered-IsConsistent}
use kv_rdma_poc.Bench.Phases.Local.Read.{AreCached, IsReadable, on_client-get}

-- A loop whose body goes well and keeps an invariant goes well.
for_each-good :
    {S X : Type 0} (Good : S → Type 0) (Fits : X → Type 0) (body : X → Exec S Message (Unit {0}))
    → ((x : X) (s : S) → Fits x → Good s → (s' : S) × (body x s ≡ (ok tt, s')) × Good s')
    → (xs : List X) (s : S) → All Fits xs
    → Good s
    → (s' : S) × (for_each body xs s ≡ (ok tt, s')) × Good s'
for_each-good Good Fits body step [] s fits good = (s, refl, good)
for_each-good Good Fits body step (x ∷ xs) s fits good =
    let (s1, run, good1) = step x s fits.0 good in
    let (s2, rest, good2) = for_each-good Good Fits body step xs s1 fits.1 good1 in
    (s2, rw run rest, good2)

All-any : {X : Type 0} (xs : List X) → All (λ _. Unit {0}) xs
All-any [] = tt
All-any (x ∷ xs) = (tt, All-any xs)

module _ (D : DashMap) (now : ℕ) (server : KvCacheServer D) (keys : List Key)
    (cached : AreCached D now server keys) (some_key : 0 < length keys) where
  -- As many clients as at the start, and all is readable.
  abbrev IsWarm : ℕ → Shared D now → Type 0
  IsWarm n w = IsReadable D now server keys w × (length w.clients ≡ n)

  warmup_task-IsWarm :
      (n m i : ℕ) (w : Shared D now)
      → i < n
      → IsWarm n w
      → (w' : Shared D now) × (warmup_task n m keys i w ≡ (ok tt, w')) × IsWarm n w'
  unfolding warmup_task
  warmup_task-IsWarm n m i w within g =
      for_each-good (IsWarm n) (λ _. Unit {0}) _
        (λ j s _ g.
          let (key, at) = nth-some keys ((i + j * n) % length keys) (grind arith) in
          let (value, s', run, g', many) =
            on_client-get D now server keys cached i _ key s (omega (arith, g.1)) at g.0 in
          (
            s',
            rw (rem_pos (i + j * n) (length keys) s some_key, index-some keys _ s at) (rw run refl),
            (g', many ∙ g.1),
          ))
        (range_from 0 m) w (All-any (range_from 0 m)) g

  -- The warmup succeeds, with every task one of a client.
  pub warmup_phase-IsReadable :
      (args : Args) (order : List ℕ) (w : Shared D now)
      → 0 < length w.clients
      → All (λ i. i < length w.clients) order
      → IsReadable D now server keys w
      → (w' : Shared D now) × (warmup_phase args keys order w ≡ (ok tt, w'))
        × IsReadable D now server keys w'
        × (length w'.clients ≡ length w.clients)
  unfolding warmup_phase
  warmup_phase-IsReadable args order w some_client below g = elim (Bool-cases (args.warmup == 0)) [
    | inl none_asked ↦ (w, rw none_asked refl, g, refl)
    | inr asked ↦
        let n : ℕ = length w.clients in
        let (w', run, (g', many)) =
          for_each-good (IsWarm n) (λ i. i < n) (λ i. task (warmup_task n (args.warmup / n) keys i))
            (λ i s within h.
              let (s', done, h') = warmup_task-IsWarm n (args.warmup / n) i s within h in
              (s', rw done refl, h'))
            order w below (g, refl) in
        (w', rw (asked, div_pos args.warmup n w some_client) run, g', many)
  ]

  -- A client of its own, beside the server.
  record IsSampling (p : Process (KvCacheServer D)) : Type 0 where
    reader : IsReader D now p.remote.memory_pool p.client
    same : p.remote ≡ server
    consistent : IsConsistent (host D p.remote p.memory)
    delivers : Delivers p.remote.transport.inner

  get_samples-IsSampling :
      (n : ℕ) (p : Process (KvCacheServer D))
      → IsSampling p
      → (p' : Process (KvCacheServer D)) × (get_samples keys n p ≡ (ok tt, p')) × IsSampling p'
  unfolding get_samples
  get_samples-IsSampling n p g =
      for_each-good IsSampling (λ _. Unit {0}) _
        (λ i s _ h.
          let (key, at) = nth-some keys (i % length keys) (grind arith) in
          let (e, found, live, fits) = cached _ key at in
          let (c, memory, run, reader, consistent) =
            get_again D now key s h.reader h.consistent h.delivers e
              (ap (λ (x : KvCacheServer D). D.get key x.cache) h.same ∙ found) live fits in
          (
            record { client = c; remote = s.remote; memory = memory },
            rw (rem_pos i (length keys) s some_key, index-some keys _ s at) (rw run refl),
            record {
              reader = reader;
              same = h.same;
              consistent = consistent;
              delivers = h.delivers;
            },
          ))
        (range_from 0 n) p (All-any (range_from 0 n)) g

module _ (D : DashMap) (now : ℕ)
    (fabric : Option (TransportConfig → Outcome Message RdmaTransportTrait)) (buffer : ℕ → ℕ)
    (args : Args) (keys : List Key) (elapsed : ℕ → ℕ) (n : ℕ) where
  -- The analysis measures every read, and leaves the entries and the clients of the pool.
  pub latency_analysis-Summarises :
      (w : Shared D now)
      → args.mock ≡ true
      → HasBuffer D now fabric buffer args ((args.base_client_id + 1000) % 2 ^ 32)
      → HasApart D now fabric buffer args w.remote.memory_pool
          ((args.base_client_id + 1000) % 2 ^ 32)
      → 0 < length keys
      → 0 < n
      → n < 2 ^ 32
      → AreCached D now w.remote keys
      → IsConsistent (serving D now w)
      → Delivers w.remote.transport.inner
      → (r : Statistics) × (w' : Shared D now) × (latency_analysis
            (in_process D now fabric buffer)
            args
            keys
            elapsed
            n
            w
          ≡ (ok r, w'))
        × Summarises r (map elapsed (range_from 0 n))
        × (w'.clients ≡ w.clients)
  unfolding latency_analysis
  latency_analysis-Summarises w mock has_buffer apart some_key some_time few cached consistent
        delivers =
      let (c, r, created, reader, same) =
        create_client-IsReader D now fabric buffer args ((args.base_client_id + 1000) % 2 ^ 32) w
          mock has_buffer apart in
      let pool = ap (λ (x : KvCacheServer D). x.memory_pool) same in
      let cached_at : AreCached D now r keys =
        λ i key at. rw (ap (λ (x : KvCacheServer D). x.cache) same) (cached i key at) in
      let (p, run, _) =
        get_samples-IsSampling D now r keys cached_at some_key n
          (record { client = c; remote = r; memory = w.memory })
          (record {
            reader = subst (λ q. IsReader D now q c) (sym pool) reader;
            same = refl;
            consistent = registered-IsConsistent D w.remote r w.memory same consistent;
            delivers = rw same delivers;
          }) in
      let w' : Shared D now = record w { remote = p.remote; memory = p.memory } in
      let many : length (map elapsed (range_from 0 n)) ≡ n =
        length-map elapsed (range_from 0 n) ∙ length-range_from 0 n in
      let (stats, summed, summarises) =
        statistics_ordered (map elapsed (range_from 0 n)) w' (omega (arith, many))
          (omega (arith, many)) in
      (stats, w', rw created (rw run summed), summarises, refl)
