-- ===== src/Examples/BenchRuns.antt =====
-- The theorem on the whole benchmark at a concrete input.
use kv_rdma_poc.Shared.{ℕ, ◌-◌, ◌≡◌, refl, [], ◌∷◌, none, inr, All, arith, ok, map}
use kv_rdma_poc.Shared.Text.{range_from}
use kv_rdma_poc.Shared.Parse.{is_white}
use kv_rdma_poc.Memory.Allocator
use kv_rdma_poc.Server.{KvCacheServer}
use kv_rdma_poc.Bench.{Args, World, bench_keys}
use kv_rdma_poc.Bench.Share.Order.{Shuffle, swap}
use kv_rdma_poc.Bench.Size.{parse_size}
use kv_rdma_poc.Bench.Latency.{Statistics}
use kv_rdma_poc.Bench.Latency.Order.{Summarises}
use kv_rdma_poc.Bench.Phases.{run_bench}
use kv_rdma_poc.Bench.Phases.Local.Started.{in_process}
use kv_rdma_poc.Bench.Phases.Local.Whole.{CanBench, run_bench_lem}
use kv_rdma_poc.Examples.Setup.{entries}
use kv_rdma_poc.Examples.ServerRuns.{booted}
use kv_rdma_poc.Examples.Histories.{booted-IsServing}
use kv_rdma_poc.Examples.RefineRuns.{booted-HasRoom}
use kv_rdma_poc.Examples.PhaseRuns.{order, order-Shuffle}
use kv_rdma_poc.Examples.PhaseRuns

-- Three workers and two clients that read two keys once after a warmup.
abbrev args : Args
args = record PhaseRuns.args { warmup = 4 }

abbrev buffers : ℕ → ℕ
buffers _ = 5000000

abbrev world : World (KvCacheServer entries)
world = record { clients = []; remote = booted.server; memory = booted.memory }

-- The time of each of the reads that are measured.
abbrev elapsed : ℕ → ℕ
elapsed i = 100 - i

two_pages : parse_size args.value_size ≡ ok 4096
unfolding parse_size is_white
two_pages = refl

world-CanBench : CanBench entries 0 none buffers args 4096 world
unfolding Allocator.new
world-CanBench = record {
  size = two_pages;
  can_write =
      (refl, (omega arith, omega arith, omega arith), omega arith, booted-IsServing, (1, refl));
  fits = omega arith;
  room = record { above = booted-HasRoom.above; room = omega (arith, booted-HasRoom.room) };
  buffers = λ id. (omega arith, omega arith, omega arith);
  separate = λ id. (omega arith, inr (omega arith));
  some_key = omega arith;
  few_keys = omega arith;
  few_reads = omega arith;
  some_worker = omega arith;
  some_client = omega arith;
  start = refl;
}

clients_swapped : Shuffle (range_from 0 2) (1 ∷ 0 ∷ [])
unfolding range_from
clients_swapped = swap 0 1 []

run_bench_lem_example :
    (stats : Statistics) × (w' : World (KvCacheServer entries)) × (run_bench
        (in_process entries 0 none buffers)
        args
        elapsed
        (1 ∷ 0 ∷ [])
        order
        order
        world
      ≡ (ok ((2, 0), stats, (2, 0)), w'))
    × Summarises stats (map elapsed (range_from 0 2))
    × All (λ key. w'.remote.cache key ≡ none) (bench_keys 2)
run_bench_lem_example =
    run_bench_lem entries 0 none buffers args 4096 world world-CanBench elapsed (1 ∷ 0 ∷ []) order
      order clients_swapped order-Shuffle order-Shuffle
