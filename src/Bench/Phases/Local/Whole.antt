-- ===== src/Bench/Phases/Local/Whole.antt =====
-- The whole of src/bin/bench.rs, with the server in the same process.
use kv_rdma_poc.Shared.{
  ℕ, ◌*◌, ◌≤◌, ◌<◌, ◌≡◌, refl, sym, ap, ◌∙◌, List, [], Option, none, ok, length, Outcome, All,
  arith, map, length-map, min,
}
use kv_rdma_poc.Shared.Word.{word}
use kv_rdma_poc.Shared.Parse.Split.{All-map}
use kv_rdma_poc.Shared.Text.{range_from, length-range_from}
use kv_rdma_poc.Message.{Message}
use kv_rdma_poc.Transport.{TransportConfig, RdmaTransportTrait}
use kv_rdma_poc.Server.EntryMap.{DashMap, Key}
use kv_rdma_poc.Server.{KvCacheServer}
use kv_rdma_poc.Server.Room.{HasRoom}
use kv_rdma_poc.Client.{max_value_size}
use kv_rdma_poc.Bench.{Args, bench_key, bench_keys}
use kv_rdma_poc.Bench.Size.{parse_size}
use kv_rdma_poc.Bench.Latency.{Statistics}
use kv_rdma_poc.Bench.Latency.Order.{Summarises}
use kv_rdma_poc.Bench.Phases.Local.Sampled.{warmup_phase-IsReadable, latency_analysis-Summarises}
use kv_rdma_poc.Bench.Share.Order.{Shuffle, order-below}
use kv_rdma_poc.Bench.Phases.{bench_value, write_phase, create_clients, run_bench}
use kv_rdma_poc.Bench.Phases.Local.{Shared}
use kv_rdma_poc.Bench.Phases.Local.Deleted.{delete_phase_lem}
use kv_rdma_poc.Bench.Phases.Local.Started.{in_process}
use kv_rdma_poc.Bench.Phases.Local.Stored.{CanWrite, write_phase_room, length-bench_value}
use kv_rdma_poc.Bench.Phases.Local.Clients.{HaveBuffers}
use kv_rdma_poc.Bench.Phases.Local.Read.{AreCached, IsReadable, read_phase_local}
use kv_rdma_poc.Bench.Phases.Local.Ready.{AreApart, held-AreCached, create_clients-IsReadable}

module _ (D : DashMap) (now : ℕ)
    (fabric : Option (TransportConfig → Outcome Message RdmaTransportTrait)) (buffer : ℕ → ℕ)
    (args : Args) where
  -- The keys that the benchmark makes.
  abbrev pub the_keys : List Key
  the_keys = bench_keys args.num_keys

  length-the_keys : length the_keys ≡ args.num_keys
  unfolding bench_keys
  length-the_keys =
      length-map bench_key (range_from 0 args.num_keys) ∙ length-range_from 0 args.num_keys

  -- What the arguments and the process have to be like.
  pub record CanBench (value_size : ℕ) (w : Shared D now) : Type 0 where
    pub size : parse_size args.value_size ≡ ok value_size
    pub can_write : CanWrite D now fabric buffer args value_size the_keys w
    pub fits : value_size ≤ max_value_size
    pub room : HasRoom w.remote.memory_pool.allocator (args.num_keys * value_size)
    pub buffers : HaveBuffers D now fabric buffer args
    pub separate : AreApart D now fabric buffer args w.remote.memory_pool
    pub some_key : 0 < args.num_keys
    pub few_keys : args.num_keys < word
    pub few_reads : args.repeat_reads * args.num_keys < word
    pub some_worker : 0 < args.num_workers
    pub some_client : 0 < args.num_clients
    pub start : w.clients ≡ []

  module _ (value_size : ℕ) (w : Shared D now) (can : CanBench value_size w) where
    -- The first two phases leave clients that can read every key.
    before_reads :
        (w1 w2 : Shared D now) × (write_phase
            (in_process D now fabric buffer)
            args
            value_size
            the_keys
            w
          ≡ (ok tt, w1))
        × (create_clients (in_process D now fabric buffer) args w1 ≡ (ok tt, w2))
        × (length w2.clients ≡ args.num_clients)
        × IsReadable D now w2.remote the_keys w2
        × AreCached D now w2.remote the_keys
        × AreApart D now fabric buffer args w2.remote.memory_pool
    before_reads =
        let (w1, wrote, (clients, s, pool, held)) =
          write_phase_room D now fabric buffer args value_size the_keys w can.can_write
            (rw length-the_keys can.room) in
        let (w2, created, many, contents, readable) =
          create_clients-IsReadable D now fabric buffer args the_keys w1 can.can_write.0 can.buffers
            (λ id. rw pool (can.separate id)) (clients ∙ can.start) s in
        (
          w1,
          w2,
          wrote,
          created,
          many,
          readable,
          held-AreCached D now fabric buffer args w2.remote (bench_value value_size) the_keys
              (omega (arith, can.fits, length-bench_value value_size))
              (rw (ap (λ (x : KvCacheServer D). x.cache) contents) held),
          λ id. rw (ap (λ (x : KvCacheServer D). x.memory_pool) contents, pool) (can.separate id),
        )

    module _ (elapsed : ℕ → ℕ) (warmups reads deletes : List ℕ) where
      -- With the mock transport, a value size that is parsed into whole pages of at most a
      -- megabyte, a receive buffer of a megabyte or more for every client, apart from the pool of
      -- the server, a serving host in the process that the clients connect to and that reads one
      -- time from its clock, room for every value above an aligned bump offset, at least one key,
      -- worker and client, fewer than 2 ^ 64 keys and reads, the tasks of each phase one after
      -- another in any order, and no client in the pool yet, the benchmark runs to its end: the
      -- read phase counts every key in every repeat as an operation and the delete phase every
      -- key, neither of them an error, the statistics summarise the times of the measured reads,
      -- and no key has an entry afterwards.
      pub run_bench_lem :
          Shuffle (range_from 0 args.num_clients) warmups
          → Shuffle (range_from 0 args.num_workers) reads
          → Shuffle (range_from 0 args.num_workers) deletes
          → (stats : Statistics) × (w' : Shared D now) × (run_bench
                (in_process D now fabric buffer)
                args
                elapsed
                warmups
                reads
                deletes
                w
              ≡ (ok ((args.num_keys * args.repeat_reads, 0), stats, (args.num_keys, 0)), w'))
            × Summarises stats (map elapsed (range_from 0 (min 100 args.num_keys)))
            × All (λ key. D.get key w'.remote.cache ≡ none) the_keys
      unfolding run_bench
      run_bench_lem warming reading deleting =
          let (w1, w2, wrote, created, many, readable, cached, separate) = before_reads in
          let keys = length-the_keys in
          let (w3, warmed, readable3, many3) =
            warmup_phase-IsReadable D now w2.remote the_keys cached
              (omega (arith, keys, can.some_key)) args warmups w2
              (omega (arith, many, can.some_client))
              (rw many (order-below 0 args.num_clients warmups warming)) readable in
          let (w4, read, readable4, many4) =
            read_phase_local D now w2.remote the_keys cached args reads w3 (sym keys)
              (rw keys can.few_reads) can.some_worker reading
              (omega (arith, many, many3, can.some_client)) readable3 in
          let (stats, w5, measured, summarises, clients) =
            latency_analysis-Summarises D now fabric buffer args the_keys elapsed
              (min 100 args.num_keys) w4 can.can_write.0 (can.buffers _)
              (rw readable4.same (separate _)) (omega (arith, keys, can.some_key))
              (ground (arith, can.some_key)) (ground arith) (rw readable4.same cached)
              readable4.consistent readable4.delivers in
          let (w6, deleted, gone, _) =
            delete_phase_lem D now args the_keys deletes w5 (sym keys)
              (omega (arith, keys, can.few_keys)) can.some_worker deleting
              (omega (
                arith,
                ap (λ (cs : List _). length cs) clients,
                many,
                many3,
                many4,
                can.some_client,
              ))
              (rw clients
                (All-map _ _ w4.clients (λ c reader. reader.connected) readable4.readers)) in
          (
            stats,
            w6,
            rw (can.size, wrote) (rw created (rw warmed (rw read (rw measured (rw deleted refl))))),
            summarises,
            gone,
          )
