-- ===== src/Bench/Phases/Local/Read.antt =====
-- The read phase of src/bin/bench.rs with the server in the same process.
use kv_rdma_poc.Shared.{
  ℕ, ◌*◌, ◌≤◌, ◌<◌, ◌≡◌, refl, ap, ◌∙◌, List, some, false, length, ok, All, arith,
}
use kv_rdma_poc.Shared.Word.{word}
use kv_rdma_poc.Shared.Text.{range_from}
use kv_rdma_poc.Protocol.{CacheEntry, is_expired}
use kv_rdma_poc.Server.EntryMap.{DashMap, Key}
use kv_rdma_poc.Server.{KvCacheServer}
use kv_rdma_poc.Server.Consistent.{IsConsistent}
use kv_rdma_poc.Transport.Mock.Copies.{Delivers}
use kv_rdma_poc.Client
use kv_rdma_poc.Client.{KvCacheClient, Process, max_value_size}
use kv_rdma_poc.Client.Get.Again.{IsReader, get_again}
use kv_rdma_poc.Bench.{Args, nth, set_nth, on_client}
use kv_rdma_poc.Bench.Index.{nth-some, nth-All, All-set_nth, length-set_nth}
use kv_rdma_poc.Bench.Share.Order.{Shuffle}
use kv_rdma_poc.Bench.Phases.{read_phase}
use kv_rdma_poc.Bench.Phases.Counts.{Counts, IsAnswered}
use kv_rdma_poc.Bench.Phases.Counts.Workers.{read_phase-Counts}
use kv_rdma_poc.Bench.Phases.Local.{Shared, serving}

module _ (D : DashMap) (now : ℕ) (server : KvCacheServer D) (keys : List Key) where
  -- Every key has a live entry that fits a receive buffer.
  abbrev pub AreCached : Type 0
  AreCached =
      (n : ℕ) (key : Key)
      → nth keys n ≡ some key
      → (e : CacheEntry) × (D.get key server.cache ≡ some e)
        × (is_expired e now ≡ false)
        × (length e.value ≤ max_value_size)

  -- The server is as it was, and every client can get.
  pub record IsReadable (w : Shared D now) : Type 0 where
    pub same : w.remote ≡ server
    pub consistent : IsConsistent (serving D now w)
    pub delivers : Delivers w.remote.transport.inner
    pub readers : All (IsReader D now w.remote.memory_pool) w.clients

  module _ (cached : AreCached) where
    -- A get by one of the clients.
    pub on_client-get :
        (i n : ℕ) (key : Key) (w : Shared D now)
        → i < length w.clients
        → nth keys n ≡ some key
        → IsReadable w
        → (value : List ℕ) × (w' : Shared D now) × (on_client i (Client.get key) w ≡ (ok value, w'))
          × IsReadable w'
          × (length w'.clients ≡ length w.clients)
    on_client-get i n key w within held g =
        let (c, at) = nth-some w.clients i within in
        let (e, found, live, fits) = cached n key held in
        let (c', memory, run, reader, consistent) =
          get_again D now key (record { client = c; remote = w.remote; memory = w.memory })
            (nth-All (IsReader D now w.remote.memory_pool) w.clients i at g.readers) g.consistent
            g.delivers e (ap (λ (x : KvCacheServer D). D.get key x.cache) g.same ∙ found) live
            fits in
        (
          e.value,
          record w { clients = set_nth i c' w.clients; memory = memory },
          rw (at, on_client) (rw run refl),
          record {
            same = g.same;
            consistent = consistent;
            delivers = g.delivers;
            readers =
                All-set_nth (IsReader D now w.remote.memory_pool) w.clients i c' reader g.readers;
          },
          length-set_nth w.clients i c',
        )

    IsReadable-IsAnswered : IsAnswered IsReadable Unit keys
    IsReadable-IsAnswered i n key w within held g =
        let (value, w', run, g', _) = on_client-get i n key w within held g in
        rw run ((λ q. cc), g', (λ clean e q. cc))

    pub read_phase_local :
        (args : Args) (order : List ℕ) (w : Shared D now)
        → args.num_keys ≡ length keys
        → args.repeat_reads * length keys < word
        → 0 < args.num_workers
        → Shuffle (range_from 0 args.num_workers) order
        → 0 < length w.clients
        → IsReadable w
        → (w' : Shared D now) × (read_phase args keys order w
            ≡ (ok (args.num_keys * args.repeat_reads, 0), w'))
          × IsReadable w'
          × (length w'.clients ≡ length w.clients)
    read_phase_local args order w same fits some_worker shuffled some_client g = (
      a.after,
      a.run ∙ ap (λ (x : ℕ × ℕ). (ok x, a.after)) (ground (arith, a.sum, a.errors tt)),
      a.good,
      a.clients,
    )
      where
        a :
            Counts IsReadable Unit
              (read_phase args keys order w)
              w
              (args.num_keys * args.repeat_reads)
              0
        a =
            read_phase-Counts IsReadable Unit args keys order w IsReadable-IsAnswered same fits
              some_worker shuffled some_client g
