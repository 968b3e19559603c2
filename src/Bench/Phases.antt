-- ===== src/Bench/Phases.antt =====
-- The phases of src/bin/bench.rs, without what they print and measure; to print does not fail. The
-- tasks of a phase run one after another, in any order: the order is an argument, a list of the numbers
-- of the tasks.
pub mod Local
pub mod Counts
pub mod Tally
use kv_rdma_poc.Shared.{
  ℕ, zero, suc, ◌+◌, ◌-◌, ◌*◌, ◌/◌, ◌%◌, ◌^◌, List, [], ◌∷◌, Option, none, some, map, ◌++◌, min,
  ltb, ◌==◌, if◌then◌else◌, length, Outcome, ok, err, panic, Exec, pure, fail, abort, ◌>>=◌, ◌>>◌,
  for_each,
}
use kv_rdma_poc.Shared.Word.{add64}
use kv_rdma_poc.Shared.Text.{range_from}
use kv_rdma_poc.Message.{Message, task_panicked}
use kv_rdma_poc.Client
use kv_rdma_poc.Client.{KvCacheClient, Process}
use kv_rdma_poc.Client.Surroundings.{Surroundings}
use kv_rdma_poc.Bench.{Args, World, rem, div, index, on_client, create_client, bench_keys}
use kv_rdma_poc.Bench.Share.{start_idx, end_idx}
use kv_rdma_poc.Bench.Size.{parse_size}
use kv_rdma_poc.Bench.Latency.{Statistics, statistics}

-- A result of `join_next()`: a task that panicked is an error.
abbrev pub joined : {S A : Type 0} → Outcome Message A × S → Outcome Message A × S
joined (ok a, s) = (ok a, s)
joined (err e, s) = (err e, s)
joined (panic, s) = (err task_panicked, s)

abbrev pub task : {S A : Type 0} → Exec S Message A → Exec S Message A
task m s = joined (m s)

-- The byte at `i` is `i % 256`.
abbrev pub bench_value : ℕ → List ℕ
bench_value value_size = map (λ i. i % 256) (range_from 0 value_size)

-- One call: it counts as an operation or as an error.
abbrev pub count : {S A : Type 0} → ℕ × ℕ → Outcome Message A × S → Outcome Message (ℕ × ℕ) × S
count t (ok _, s) = (ok (add64 t.0 1, t.1), s)
count t (err _, s) = (ok (t.0, add64 t.1 1), s)
count t (panic, s) = (panic, s)

-- The calls of a worker, one for each index of its share.
unfoldable pub work :
    {S A : Type 0}
    → (List ℕ → Exec S Message A)
    → List (List ℕ)
    → List ℕ
    → ℕ × ℕ
    → Exec S Message (ℕ × ℕ)
work call keys [] tally = pure tally
work call keys (idx ∷ share) tally = do
  key ← index keys idx
  tally' ← (λ s. count tally (call key s))
  work call keys share tally'

unfoldable pub repeat_work :
    {S A : Type 0}
    → (List ℕ → Exec S Message A)
    → List (List ℕ)
    → List ℕ
    → ℕ
    → ℕ × ℕ
    → Exec S Message (ℕ × ℕ)
unfolding work
repeat_work call keys share zero tally = pure tally
repeat_work call keys share (suc n) tally = do
  tally' ← work call keys share tally
  repeat_work call keys share n tally'

unfoldable pub share_of : ℕ → ℕ → ℕ → List ℕ
unfolding start_idx end_idx range_from
share_of num_keys num_workers worker_id =
    let start = start_idx num_keys num_workers worker_id in
    range_from start (end_idx num_keys num_workers worker_id - start)

-- The tallies of the workers, added up.
unfoldable pub gather :
    {S : Type 0} → (ℕ → Exec S Message (ℕ × ℕ)) → List ℕ → ℕ × ℕ → Exec S Message (ℕ × ℕ)
gather f [] total = pure total
gather f (i ∷ is) total = do tally ← f i; gather f is (add64 total.0 tally.0, add64 total.1 tally.1)

module _ {R : Type 0} where
  -- A client of its own for a phase, beside those of the pool.
  abbrev pub with_client :
      {A : Type 0} → KvCacheClient R → Exec (Process R) Message A → Exec (World R) Message A
  with_client c m w =
      let (r, p) = m (record { client = c; remote = w.remote; memory = w.memory }) in
      (r, record w { remote = p.remote; memory = p.memory })

  unfoldable pub put_all : List ℕ → ℕ → List (List ℕ) → Exec (Process R) Message (Unit {0})
  put_all value ttl = for_each (λ key. Client.put key value ttl)

  unfoldable pub write_phase :
      Surroundings R → Args → ℕ → List (List ℕ) → Exec (World R) Message (Unit {0})
  unfolding create_client put_all range_from
  write_phase s args value_size keys = do
    client ← create_client s args args.base_client_id
    with_client client (put_all (bench_value value_size) args.ttl keys)

  unfoldable pub warmup_task : ℕ → ℕ → List (List ℕ) → ℕ → Exec (World R) Message (Unit {0})
  unfolding range_from
  warmup_task num_clients warmup_per_client keys client_idx =
      for_each
        (λ i. do
          key_idx ← rem (client_idx + i * num_clients) (length keys)
          key ← index keys key_idx
          on_client client_idx (Client.get key)
          pure tt)
        (range_from 0 warmup_per_client)

  -- The first task that fails ends the phase.
  unfoldable pub warmup_phase : Args → List (List ℕ) → List ℕ → Exec (World R) Message (Unit {0})
  unfolding warmup_task
  warmup_phase args keys order = if args.warmup == 0 then pure tt else (do
    num_clients ← (λ w. (ok (length w.clients), w))
    warmup_per_client ← div args.warmup num_clients
    for_each (λ client_idx. task (warmup_task num_clients warmup_per_client keys client_idx)) order)

  -- A worker has the client at its number modulo the number of clients, and its share of the keys.
  unfoldable pub worker :
      (ℕ → List ℕ → Exec (World R) Message (ℕ × ℕ)) → Args → ℕ → Exec (World R) Message (ℕ × ℕ)
  unfolding share_of
  worker body args worker_id = do
    num_clients ← (λ w. (ok (length w.clients), w))
    i ← rem worker_id num_clients
    task (body i (share_of args.num_keys args.num_workers worker_id))

  unfoldable pub read_phase : Args → List (List ℕ) → List ℕ → Exec (World R) Message (ℕ × ℕ)
  unfolding gather worker repeat_work
  read_phase args keys order =
      gather
        (worker
          (λ i share.
            repeat_work (λ key. on_client i (Client.get key)) keys share args.repeat_reads (0, 0))
          args)
        order (0, 0)

  unfoldable pub delete_phase : Args → List (List ℕ) → List ℕ → Exec (World R) Message (ℕ × ℕ)
  unfolding gather worker work
  delete_phase args keys order =
      gather
        (worker (λ i share. work (λ key. on_client i (Client.delete key)) keys share (0, 0)) args)
        order (0, 0)

  -- The gets that are measured.
  unfoldable pub get_samples : List (List ℕ) → ℕ → Exec (Process R) Message (Unit {0})
  unfolding range_from
  get_samples keys num_samples =
      for_each
        (λ i. do key_idx ← rem i (length keys); key ← index keys key_idx; Client.get key; pure tt)
        (range_from 0 num_samples)

  -- `elapsed` is the time that each call takes. The first call that fails ends the analysis.
  unfoldable pub latency_analysis :
      Surroundings R → Args → List (List ℕ) → (ℕ → ℕ) → ℕ → Exec (World R) Message Statistics
  unfolding create_client get_samples
  latency_analysis s args keys elapsed num_samples = do
    client ← create_client s args ((args.base_client_id + 1000) % 2 ^ 32)
    with_client client (get_samples keys num_samples)
    statistics (map elapsed (range_from 0 num_samples))

  unfoldable pub create_clients : Surroundings R → Args → Exec (World R) Message (Unit {0})
  unfolding create_client range_from
  create_clients s args =
      for_each
        (λ client_id. do
          client ← create_client s args ((args.base_client_id + client_id % 2 ^ 32 + 1) % 2 ^ 32)
          (λ w. (ok tt, record w { clients = w.clients ++ client ∷ [] })))
        (range_from 0 args.num_clients)

  -- `main`, with the tallies of the read and the delete phase and the statistics. The last three
  -- lists are the orders of the tasks of the warmup, the read and the delete phase.
  unfoldable pub run_bench :
      Surroundings R
      → Args
      → (ℕ → ℕ)
      → (warmups reads deletes : List ℕ) → Exec (World R) Message ((ℕ × ℕ) × Statistics × (ℕ × ℕ))
  unfolding parse_size bench_keys write_phase create_clients warmup_phase read_phase
      latency_analysis delete_phase
  run_bench s args elapsed warmups reads deletes = do
    value_size ← (λ w. (parse_size args.value_size, w))
    write_phase s args value_size (bench_keys args.num_keys)
    create_clients s args
    warmup_phase args (bench_keys args.num_keys) warmups
    read ← read_phase args (bench_keys args.num_keys) reads
    latencies ← latency_analysis s args (bench_keys args.num_keys) elapsed (min 100 args.num_keys)
    deleted ← delete_phase args (bench_keys args.num_keys) deletes
    pure (read, latencies, deleted)
