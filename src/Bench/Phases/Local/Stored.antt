-- ===== src/Bench/Phases/Local/Stored.antt =====
-- `write_phase` of src/bin/bench.rs, with the server in the same process.
use kv_rdma_poc.Shared.{
  ℕ, Exec, ap, ◌*◌, ◌≤◌, ◌≡◌, refl, List, Option, true, ok, arith, Outcome, All, length, length-map,
  ◌∙◌, ◌⊎◌, inl, inr, err, sym, subst, ◌%◌,
}
use kv_rdma_poc.Shared.Text.{range_from, length-range_from}
use kv_rdma_poc.Message.{Message, pool_exhausted, put_failed}
use kv_rdma_poc.Memory.Bytes.{Memory}
use kv_rdma_poc.Memory.Pool.{MemoryPool}
use kv_rdma_poc.Server.EntryMap.{DashMap, Key}
use kv_rdma_poc.Server.{KvCacheServer}
use kv_rdma_poc.Server.Consistent.{IsConsistent}
use kv_rdma_poc.Server.Serving.{IsServing}
use kv_rdma_poc.Client.{Process, max_inline_size}
use kv_rdma_poc.Client.Get.Local.{host}
use kv_rdma_poc.Bench.{Args}
use kv_rdma_poc.Bench.Phases.Local.{Shared, serving}
use kv_rdma_poc.Bench.Phases.{bench_value, put_all, write_phase}
use kv_rdma_poc.Bench.Phases.Local.Started.{in_process, HasBuffer, create_client-IsLocal}
use kv_rdma_poc.Bench.Phases.Local.Written.{Holds, SamePool, CanTake, WritesOrFails, put_all_lem}
use kv_rdma_poc.Bench.Phases.Local.Room.{put_all_room}
use kv_rdma_poc.Server.Room.{HasRoom}
use kv_rdma_poc.Transport.{TransportConfig, RdmaTransportTrait}
use kv_rdma_poc.Memory.Align.{Multiple}

-- A client more or less in the list of the server.
module _ (D : DashMap) (r r' : KvCacheServer D) (m : Memory)
    (e : r' ≡ record r { clients = r'.clients }) where
  pub registered-IsConsistent : IsConsistent (host D r m) → IsConsistent (host D r' m)
  registered-IsConsistent c = rw e (record {
    registered = c.registered;
    free = c.free;
    bytes = c.bytes;
    bound = c.bound;
    owned = c.owned;
    apart = c.apart;
  })

  pub registered-IsServing : IsServing (host D r m) → IsServing (host D r' m)
  registered-IsServing s = record {
    consistent = registered-IsConsistent s.consistent;
    delivers = rw e s.delivers;
    free_units = rw e s.free_units;
    entry_units = rw e s.entry_units;
  }

pub length-bench_value : (n : ℕ) → length (bench_value n) ≡ n
length-bench_value n = length-map (λ i. i % 256) (range_from 0 n) ∙ length-range_from 0 n

module _ (D : DashMap) (now : ℕ)
    (fabric : Option (TransportConfig → Outcome Message RdmaTransportTrait)) (buffer : ℕ → ℕ)
    (args : Args) (value_size : ℕ) (keys : List Key) (w : Shared D now) where
  abbrev write : Exec (Shared D now) Message (Unit {0})
  write = write_phase (in_process D now fabric buffer) args value_size keys

  -- What the writer's process has done, back at the benchmark.
  abbrev back :
      Outcome Message (Unit {0}) × Process (KvCacheServer D)
      → Outcome Message (Unit {0}) × Shared D now
  back (r, p) = (r, record w { remote = p.remote; memory = p.memory })

  -- A process whose client has just connected to the server.
  abbrev IsStarted : Process (KvCacheServer D) → Type 0
  IsStarted p =
      CanTake D now (bench_value value_size) args.ttl p
      × (p.remote.memory_pool ≡ w.remote.memory_pool)

  -- What is needed for the phase to run: the mock transport, a receive buffer, a serving host, and
  -- a value size of whole pages, of at most 64 megabytes.
  abbrev pub CanWrite : Type 0
  CanWrite =
      (args.mock ≡ true)
      × HasBuffer D now fabric buffer args args.base_client_id
      × (value_size ≤ max_inline_size)
      × IsServing (serving D now w)
      × Multiple w.remote.memory_pool.allocator.alignment value_size

  -- The phase writes all keys, by a client that has connected.
  write_phase_run :
      CanWrite
      → (p : Process (KvCacheServer D)) × IsStarted p
        × (write w ≡ back (put_all (bench_value value_size) args.ttl keys p))
  unfolding write_phase
  write_phase_run (mock, has_buffer, small, s, units) =
      let (c, r, created, local, same) =
        create_client-IsLocal D now fabric buffer args args.base_client_id w mock has_buffer in
      (
        record { client = c; remote = r; memory = w.memory },
        (
          (local, registered-IsServing D w.remote r w.memory same s, units' r same),
          ap (λ (x : KvCacheServer D). x.memory_pool) same,
        ),
        rw created refl,
      )
    where
      units' :
          (r : KvCacheServer D)
          → r ≡ record w.remote { clients = r.clients }
          → Multiple r.memory_pool.allocator.alignment (length (bench_value value_size))
      units' r same =
          subst (λ n. Multiple r.memory_pool.allocator.alignment n)
            (sym (length-bench_value value_size)) (rw same units)

  -- The clients and the buffer of the pool are the same, the host serves, and every key has the
  -- value.
  abbrev pub IsWritten : Shared D now → Type 0
  IsWritten w' =
      (w'.clients ≡ w.clients)
      × IsServing (serving D now w')
      × SamePool D now (bench_value value_size) args.ttl w.remote w'.remote
      × All (Holds D now (bench_value value_size) args.ttl w'.remote.cache) keys

  -- With the mock transport, a receive buffer, a serving host in the process that a client
  -- connects to, and values of whole pages and of at most 64 megabytes, the write phase leaves
  -- every key with an entry of the value and the time to live, on a host that serves and with the
  -- clients of the pool the same, or it fails with the message of a put that the pool had no
  -- memory for.
  pub write_phase_lem :
      CanWrite
      → (w' : Shared D now) × (((write_phase (in_process D now fabric buffer) args value_size keys w
              ≡ (ok tt, w'))
            × IsWritten w')
          ⊎ (write_phase (in_process D now fabric buffer) args value_size keys w
              ≡ (err (put_failed pool_exhausted), w')))
  write_phase_lem can =
      let (p, started, run) = write_phase_run can in
      finish p started.1 run (
        put_all_lem D now (bench_value value_size) args.ttl keys p
          (omega (arith, length-bench_value value_size, can.2)) started.0)
    where
      finish :
          (p : Process (KvCacheServer D))
          → p.remote.memory_pool ≡ w.remote.memory_pool
          → write w ≡ back (put_all (bench_value value_size) args.ttl keys p)
          → WritesOrFails D now
              (bench_value value_size)
              args.ttl
              keys
              (put_all (bench_value value_size) args.ttl keys p)
              p
          → (w' : Shared D now) × (((write w ≡ (ok tt, w')) × IsWritten w')
              ⊎ (write w ≡ (err (put_failed pool_exhausted), w')))
      finish p same run (inl (p', done, wrote)) = (
        record w { remote = p'.remote; memory = p'.memory },
        inl (
          run ∙ ap back done,
          (
            refl,
            wrote.can_take.1,
            wrote.pool
                ∙ ap (λ (m : MemoryPool). record m { allocator = p'.remote.memory_pool.allocator })
                    same,
            wrote.written,
          ),
        ),
      )
      finish p same run (inr (p', failed, wrote)) =
          (record w { remote = p'.remote; memory = p'.memory }, inr (run ∙ ap back failed))

  -- With the mock transport, a receive buffer, a serving host in the process that a client
  -- connects to, values of whole pages and of at most 64 megabytes, and room for every value above
  -- an aligned bump offset, the write phase succeeds; afterwards every key has an entry with the
  -- value and the time to live, the host serves, and the clients of the pool are the same.
  pub write_phase_room :
      CanWrite
      → HasRoom w.remote.memory_pool.allocator (length keys * value_size)
      → (w' : Shared D now) × (write_phase (in_process D now fabric buffer) args value_size keys w
          ≡ (ok tt, w'))
        × IsWritten w'
  write_phase_room can r =
      let (p, (started, same), run) = write_phase_run can in
      let (p', done, wrote) =
        put_all_room D now (bench_value value_size) args.ttl keys p
          (omega (arith, length-bench_value value_size, can.2)) started
          (rw (same, length-bench_value value_size) r) in
      (
        record w { remote = p'.remote; memory = p'.memory },
        run ∙ ap back done,
        (
          refl,
          wrote.can_take.1,
          wrote.pool
              ∙ ap (λ (m : MemoryPool). record m { allocator = p'.remote.memory_pool.allocator })
                  same,
          wrote.written,
        ),
      )
