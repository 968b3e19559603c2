-- ===== src/Examples/PhaseRuns.antt =====
-- The theorems on the benchmark at concrete inputs.
use kv_rdma_poc.Shared.{ℕ, ◌≡◌, ◌≢◌, ◌++◌, refl, List, [], ◌∷◌, true, none, All, arith, ok}
use kv_rdma_poc.Shared.Word.{mul64}
use kv_rdma_poc.Shared.Text.{decimal, codes, range_from}
use kv_rdma_poc.Memory.Allocator
use kv_rdma_poc.Server.EntryMap.{Key}
use kv_rdma_poc.Server.{KvCacheServer}
use kv_rdma_poc.Client.Get.Local.{local_stub}
use kv_rdma_poc.Bench.{Args, World}
use kv_rdma_poc.Bench.Share.Order.{Shuffle, skip, swap, next}
use kv_rdma_poc.Bench.Size.{parse_size}
use kv_rdma_poc.Bench.Size.Print.{SizeUnit, factor, in_case, parse_size-print}
use kv_rdma_poc.Bench.Latency.{Statistics, statistics}
use kv_rdma_poc.Bench.Latency.Order.{Summarises, statistics_ordered}
use kv_rdma_poc.Bench.Phases.{write_phase, delete_phase}
use kv_rdma_poc.Bench.Phases.Local.Started.{in_process}
use kv_rdma_poc.Bench.Phases.Local.Stored.{CanWrite, IsWritten, write_phase_room}
use kv_rdma_poc.Bench.Phases.Local.Deleted.{delete_phase_lem}
use kv_rdma_poc.Examples.Setup.{entries}
use kv_rdma_poc.Examples.ServerRuns.{booted, key_a}
use kv_rdma_poc.Examples.Histories.{booted-IsServing}
use kv_rdma_poc.Examples.ClientRuns.{client_of}
use kv_rdma_poc.Examples.RefineRuns.{booted-HasRoom}

parse_size-print_example :
    parse_size (decimal 512 ++ in_case true SizeUnit.kilobytes)
    ≡ ok (mul64 512 (factor SizeUnit.kilobytes))
parse_size-print_example = parse_size-print 512 (omega arith) true SizeUnit.kilobytes

statistics_ordered_example :
    (r : Statistics) × (statistics {S = Unit {0}} (7 ∷ 3 ∷ 5 ∷ []) tt ≡ (ok r, tt))
    × Summarises r (7 ∷ 3 ∷ 5 ∷ [])
statistics_ordered_example = statistics_ordered (7 ∷ 3 ∷ 5 ∷ []) tt (omega arith) (omega arith)

abbrev pub two_keys : List Key
two_keys = key_a ∷ (98 ∷ []) ∷ []

abbrev pub args : Args
args = record {
  server_addr = [];
  num_keys = 2;
  value_size = codes "4KB";
  num_workers = 3;
  num_clients = 2;
  buffer_mb = 64;
  mock = true;
  base_client_id = 100;
  ttl = 60;
  warmup = 0;
  repeat_reads = 1;
}

abbrev buffers : ℕ → ℕ
buffers _ = 5000000

-- Two clients of the server that has just started.
abbrev world : World (KvCacheServer entries)
world = record {
  clients = client_of (local_stub entries 0) ∷ client_of (local_stub entries 0) ∷ [];
  remote = booted.server;
  memory = booted.memory;
}

world-CanWrite : CanWrite entries 0 none buffers args 4096 two_keys world
unfolding Allocator.new
world-CanWrite =
    (refl, (omega arith, omega arith, omega arith), omega arith, booted-IsServing, (1, refl))

write_phase_room_example :
    (w' : World (KvCacheServer entries)) × (write_phase
        (in_process entries 0 none buffers)
        args
        4096
        two_keys
        world
      ≡ (ok tt, w'))
    × IsWritten entries 0 none buffers args 4096 two_keys world w'
write_phase_room_example =
    write_phase_room entries 0 none buffers args 4096 two_keys world world-CanWrite
      (record { above = booted-HasRoom.above; room = omega (arith, booted-HasRoom.room) })

-- The last worker first.
abbrev pub order : List ℕ
order = 2 ∷ 0 ∷ 1 ∷ []

pub order-Shuffle : Shuffle (range_from 0 3) order
unfolding range_from
order-Shuffle = next (skip 0 (swap 1 2 [])) (swap 0 2 (1 ∷ []))

delete_phase_lem_example :
    (w' : World (KvCacheServer entries)) × (delete_phase args two_keys order world
      ≡ (ok (2, 0), w'))
    × All (λ key. w'.remote.cache key ≡ none) two_keys
    × ((k : Key) → All (λ key. key ≢ k) two_keys → w'.remote.cache k ≡ booted.cache k)
delete_phase_lem_example =
    delete_phase_lem entries 0 args two_keys order world refl (omega arith) (omega arith)
      order-Shuffle (omega arith) (refl, (refl, tt))
