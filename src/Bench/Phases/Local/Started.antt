-- ===== src/Bench/Phases/Local/Started.antt =====
-- A client that src/bin/bench.rs creates, with the server in the same process.
use kv_rdma_poc.Shared.{
  ℕ, [], subst, sym, ap, ltb, false, ◌⊎◌, ◌∙◌, arith, ◌+◌, ◌≤◌, ◌<◌, ◌≡◌, refl, Option, true, ok,
  Outcome,
}
use kv_rdma_poc.Shared.Word.{word, mul64}
use kv_rdma_poc.Message.{Message}
use kv_rdma_poc.Memory.Align.{align_up}
use kv_rdma_poc.Memory.Allocator
use kv_rdma_poc.Memory.Allocator.Conserve.{max_len, IsWellFormed}
use kv_rdma_poc.Memory.Pool.{MemoryPool}
use kv_rdma_poc.Client.Get.Again.{CanReceive, IsReader}
use kv_rdma_poc.Transport.{TransportConfig, RdmaTransportTrait}
use kv_rdma_poc.Server.EntryMap.{DashMap}
use kv_rdma_poc.Server.{KvCacheServer}
use kv_rdma_poc.Server.Service
use kv_rdma_poc.Client
use kv_rdma_poc.Client.{KvCacheClient, Process, max_value_size}
use kv_rdma_poc.Client.Fresh.{new-IsReceiving}
use kv_rdma_poc.Client.Get.Local.{local_stub}
use kv_rdma_poc.Client.Surroundings.{Surroundings}
use kv_rdma_poc.Bench.{Args, client_config, create_client}
use kv_rdma_poc.Bench.Phases.Local.{Shared, IsLocal}

module _ (D : DashMap) (now : ℕ)
    (fabric : Option (TransportConfig → Outcome Message RdmaTransportTrait)) (buffer : ℕ → ℕ) where
  -- Whatever the address, tonic connects to the server of this process.
  abbrev pub in_process : Surroundings (KvCacheServer D)
  in_process = record {
    connect_channel = λ _. ok (local_stub D now);
    fabric = fabric;
    buffer = buffer;
  }

  -- A receive buffer that `KvCacheClient::new` can register.
  abbrev pub HasBuffer : Args → ℕ → Type 0
  HasBuffer args id =
      (0 < buffer id)
      × (mul64 (mul64 args.buffer_mb 1024) 1024 + 4096 ≤ max_len)
      × (buffer id + mul64 (mul64 args.buffer_mb 1024) 1024 < word)

  -- Only the list of the registered clients changes at the server.
  abbrev pub SameContents : KvCacheServer D → KvCacheServer D → Type 0
  SameContents r r' = r' ≡ record r { clients = r'.clients }

  connect-IsLocal :
      (p : Process (KvCacheServer D))
      → (c : KvCacheClient (KvCacheServer D)) × (r : KvCacheServer D) × (Client.connect
            (λ _. ok (local_stub D now))
            p
          ≡ (ok tt, record p { client = c; remote = r }))
        × IsLocal D now c
        × SameContents p.remote r
        × (c.memory_pool ≡ p.memory_pool)
        × (c.pending ≡ p.pending)
  unfolding Client.connect Service.register_client
  connect-IsLocal p = (_, _, refl, refl, refl, refl, refl)

  pub create_client-IsLocal :
      (args : Args) (id : ℕ) (w : Shared D now)
      → args.mock ≡ true
      → HasBuffer args id
      → (c : KvCacheClient (KvCacheServer D)) × (r : KvCacheServer D) × (create_client in_process
            args id w
          ≡ (ok c, record w { remote = r }))
        × IsLocal D now c
        × SameContents w.remote r
  unfolding create_client
  create_client-IsLocal args id w mock (not_null, size, addressed) =
      let (c0, made, _, _, _, _, _, _) =
        new-IsReceiving {R = KvCacheServer D} fabric (client_config args id) (buffer id) mock
          not_null size addressed in
      let (c, r, run, local, same, _, _) =
        connect-IsLocal (record { client = c0; remote = w.remote; memory = w.memory }) in
      (c, r, rw (made, create_client) (rw run refl), local, same)

  abbrev pub buffer_size : Args → ℕ
  buffer_size args = mul64 (mul64 args.buffer_mb 1024) 1024

  -- A receive buffer of at least a megabyte, apart from the pool of the server.
  abbrev pub HasApart : Args → MemoryPool → ℕ → Type 0
  HasApart args pool id =
      (max_value_size ≤ buffer_size args)
      × ((buffer id + buffer_size args ≤ pool.buffer) ⊎ (pool.buffer + pool.buffer_len ≤ buffer id))

  fresh-CanReceive :
      (size : ℕ)
      → IsWellFormed (Allocator.new size 4096)
      → max_value_size ≤ size
      → CanReceive (Allocator.new size 4096)
  unfolding Allocator.new Allocator.allocate Allocator.first_fit Allocator.bump align_up
  fresh-CanReceive size well_formed large = record {
    well_formed = well_formed;
    granular = tt;
    units = (256, refl);
    granted = (
      0,
      record { offset = max_value_size; capacity = size; alignment = 4096; free_list = [] },
      rw fits refl,
    );
  }
    where
      fits : ltb size max_value_size ≡ false
      fits = ground arith

  pub create_client-IsReader :
      (args : Args) (id : ℕ) (w : Shared D now)
      → args.mock ≡ true
      → HasBuffer args id
      → HasApart args w.remote.memory_pool id
      → (c : KvCacheClient (KvCacheServer D)) × (r : KvCacheServer D) × (create_client in_process
            args id w
          ≡ (ok c, record w { remote = r }))
        × IsReader D now w.remote.memory_pool c
        × SameContents w.remote r
  unfolding create_client
  create_client-IsReader args id w mock (not_null, size, addressed) (large, apart) =
      let (c0, made, _, none_pending, receiving, allocator, at, len) =
        new-IsReceiving {R = KvCacheServer D} fabric (client_config args id) (buffer id) mock
          not_null size addressed in
      let (c, r, run, local, same, pool, pending) =
        connect-IsLocal (record { client = c0; remote = w.remote; memory = w.memory }) in
      (
        c,
        r,
        rw (made, create_client) (rw run refl),
        record {
          connected = local;
          can_receive =
              subst (λ a. CanReceive a)
                (sym (ap (λ (m : MemoryPool). m.allocator) pool ∙ allocator))
                (fresh-CanReceive (buffer_size args)
                  (subst (λ a. IsWellFormed a) allocator receiving.well_formed) large);
          whole = rw pool receiving.whole;
          base = rw pool receiving.base;
          not_null = rw pool receiving.not_null;
          addressed = rw pool receiving.addressed;
          apart = rw (pool, at, len) apart;
          idle = pending ∙ none_pending;
        },
        same,
      )
