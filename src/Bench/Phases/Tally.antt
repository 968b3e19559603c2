-- ===== src/Bench/Phases/Tally.antt =====
-- The tally of the read phase of src/bin/bench.rs, whatever the server answers.
use kv_rdma_poc.Shared.{ℕ, ◌+◌, ◌*◌, ◌<◌, ◌≡◌, ◌≢◌, List, ok, panic, length}
use kv_rdma_poc.Shared.Word.{word}
use kv_rdma_poc.Shared.Text.{range_from}
use kv_rdma_poc.Client
use kv_rdma_poc.Bench.{Args, World, on_client}
use kv_rdma_poc.Bench.Share.Order.{Shuffle}
use kv_rdma_poc.Bench.Phases.{read_phase}
use kv_rdma_poc.Bench.Phases.Counts.{}
use kv_rdma_poc.Bench.Phases.Counts.Workers.{read_phase-Counts}

module _ {R : Type 0} (Good : World R → Type 0) where
  -- No get panics.
  abbrev pub IsSafe : Type 0
  IsSafe =
      (i : ℕ) (key : List ℕ) (w : World R)
      → i < length w.clients
      → Good w
      → ((on_client i (Client.get key) w).0 ≢ panic) × Good (on_client i (Client.get key) w).1

  -- Where no get of the clients panics in the states that it is called in, with as many keys as
  -- the arguments say, fewer than 2 ^ 64 reads, at least one worker and one client, and the
  -- workers run one after another in any order, the read phase returns, and its operations and
  -- errors together are the keys times the repeats.
  pub read_phase_tally :
      (args : Args) (keys : List (List ℕ)) (order : List ℕ) (w : World R)
      → IsSafe
      → args.num_keys ≡ length keys
      → args.repeat_reads * length keys < word
      → 0 < args.num_workers
      → Shuffle (range_from 0 args.num_workers) order
      → 0 < length w.clients
      → Good w
      → (ops errs : ℕ) × (w' : World R) × (read_phase args keys order w ≡ (ok (ops, errs), w'))
        × (ops + errs ≡ args.num_keys * args.repeat_reads)
  read_phase_tally args keys order w safe same fits some_worker shuffled some_client good =
      let a =
        read_phase-Counts Good ⊥ args keys order w
          (λ i n key w' within found good'.
            ((safe i key w' within good').0, (safe i key w' within good').1, λ clean. absurd clean))
          same fits some_worker shuffled some_client good in
      (a.tally.0, a.tally.1, a.after, a.run, a.sum)
