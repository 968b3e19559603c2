-- ===== src/Bench/Phases/Local/Ready.antt =====
-- The clients of src/bin/bench.rs are ready to read what the write phase has written.
use kv_rdma_poc.Shared.{
  ℕ, ◌≤◌, ◌≡◌, refl, sym, subst, ap, true, false, List, [], Option, ok, length, Outcome, All, arith,
}
use kv_rdma_poc.Message.{Message}
use kv_rdma_poc.Memory.Pool.{MemoryPool}
use kv_rdma_poc.Protocol.{CacheEntry, is_expired}
use kv_rdma_poc.Transport.{TransportConfig, RdmaTransportTrait}
use kv_rdma_poc.Server.EntryMap.{DashMap, Key}
use kv_rdma_poc.Server.{KvCacheServer}
use kv_rdma_poc.Server.Serving.{IsServing}
use kv_rdma_poc.Client.{max_value_size}
use kv_rdma_poc.Client.Get.Again.{IsReader}
use kv_rdma_poc.Bench.{Args}
use kv_rdma_poc.Bench.Index.{nth-All}
use kv_rdma_poc.Bench.Phases.{create_clients}
use kv_rdma_poc.Bench.Phases.Local.{Shared, serving}
use kv_rdma_poc.Bench.Phases.Local.Started.{
  in_process, SameContents, HasApart, create_client-IsReader,
}
use kv_rdma_poc.Bench.Phases.Local.Joined.{create_clients-Joins}
use kv_rdma_poc.Bench.Phases.Local.Stored.{registered-IsServing}
use kv_rdma_poc.Bench.Phases.Local.Written.{Holds}
use kv_rdma_poc.Bench.Phases.Local.Clients.{HaveBuffers}
use kv_rdma_poc.Bench.Phases.Local.Read.{AreCached, IsReadable}

-- An entry is live at the time that it was created.
new_entry-IsLive : (e : CacheEntry) (now : ℕ) → e.created_at ≡ now → is_expired e now ≡ false
unfolding is_expired
new_entry-IsLive e now created = ground (arith, created)

module _ (D : DashMap) (now : ℕ)
    (fabric : Option (TransportConfig → Outcome Message RdmaTransportTrait)) (buffer : ℕ → ℕ)
    (args : Args) where
  pub held-AreCached :
      (server : KvCacheServer D) (value : List ℕ) (keys : List Key)
      → length value ≤ max_value_size
      → All (Holds D now value args.ttl server.cache) keys
      → AreCached D now server keys
  held-AreCached server value keys fits held n key at =
      let (e, found, same, _, created) =
        nth-All (Holds D now value args.ttl server.cache) keys n at held in
      (e, found, new_entry-IsLive e now created, rw same fits)

  -- Every client of the pool has a receive buffer of a megabyte or more, apart from the pool of
  -- the server.
  abbrev pub AreApart : MemoryPool → Type 0
  AreApart pool = (id : ℕ) → HasApart D now fabric buffer args pool id

  pub create_clients-IsReadable :
      (keys : List Key) (w1 : Shared D now)
      → args.mock ≡ true
      → HaveBuffers D now fabric buffer args
      → AreApart w1.remote.memory_pool
      → w1.clients ≡ []
      → IsServing (serving D now w1)
      → (w2 : Shared D now) × (create_clients (in_process D now fabric buffer) args w1
          ≡ (ok tt, w2))
        × (length w2.clients ≡ args.num_clients)
        × SameContents D now fabric buffer w1.remote w2.remote
        × IsReadable D now w2.remote keys w2
  create_clients-IsReadable keys w1 mock buffers separate start s =
      let pool : MemoryPool = w1.remote.memory_pool in
      let (w2, created, joined) =
        create_clients-Joins D now fabric buffer args pool (IsReader D now pool)
          (λ id w at.
            let (c, r, made, reader, same) =
              create_client-IsReader D now fabric buffer args id w mock (buffers id)
                (subst (λ q. HasApart D now fabric buffer args q id) (sym at) (separate id)) in
            (c, r, made, subst (λ q. IsReader D now q c) at reader, same))
          w1 refl (rw start tt) in
      let s2 =
        subst (λ m. IsServing (record { server = w2.remote; memory = m })) (sym joined.memory)
          (registered-IsServing D w1.remote w2.remote w1.memory joined.contents s) in
      (
        w2,
        created,
        omega (arith, joined.clients, ap (λ (cs : List _). length cs) start),
        joined.contents,
        record {
          same = refl;
          consistent = s2.consistent;
          delivers = s2.delivers;
          readers =
              subst (λ q. All (IsReader D now q) w2.clients)
                (sym (ap (λ (x : KvCacheServer D). x.memory_pool) joined.contents)) joined.all;
        },
      )
