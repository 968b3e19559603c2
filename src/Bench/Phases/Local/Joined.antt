-- ===== src/Bench/Phases/Local/Joined.antt =====
-- The pool of clients of src/bin/bench.rs, with the server in the same process.
use kv_rdma_poc.Shared.{
  ℕ, zero, suc, ◌+◌, ◌%◌, ◌^◌, ◌≡◌, refl, ap, ◌∙◌, [], ◌∷◌, ◌++◌, Option, ok, length, length-append,
  Outcome, Exec, All, for_each, ◌>>=◌, arith,
}
use kv_rdma_poc.Shared.Parse.Split.{All-append}
use kv_rdma_poc.Shared.Text.{range_from}
use kv_rdma_poc.Message.{Message}
use kv_rdma_poc.Transport.{TransportConfig, RdmaTransportTrait}
use kv_rdma_poc.Server.EntryMap.{DashMap}
use kv_rdma_poc.Server.{KvCacheServer}
use kv_rdma_poc.Client.{KvCacheClient}
use kv_rdma_poc.Memory.Pool.{MemoryPool}
use kv_rdma_poc.Bench.{Args, create_client}
use kv_rdma_poc.Bench.Phases.{create_clients}
use kv_rdma_poc.Bench.Phases.Local.{Shared}
use kv_rdma_poc.Bench.Phases.Local.Started.{in_process, SameContents}

module _ (D : DashMap) (now : ℕ)
    (fabric : Option (TransportConfig → Outcome Message RdmaTransportTrait)) (buffer : ℕ → ℕ)
    (args : Args) (pool : MemoryPool) (P : KvCacheClient (KvCacheServer D) → Type 0) where
  -- A client that has just been created is in `P`, as long as the server has this pool.
  abbrev pub IsMade : ℕ → Type 0
  IsMade id =
      (w : Shared D now)
      → w.remote.memory_pool ≡ pool
      → (c : KvCacheClient (KvCacheServer D)) × (r : KvCacheServer D) × (create_client
            (in_process D now fabric buffer) args id w
          ≡ (ok c, record w { remote = r }))
        × P c
        × SameContents D now fabric buffer w.remote r

  -- From `w` to `w'` the pool has got `n` clients more, and of the server only the list of the
  -- registered clients has changed.
  pub record Joins (n : ℕ) (w w' : Shared D now) : Type 0 where
    pub all : All P w'.clients
    pub clients : length w'.clients ≡ length w.clients + n
    pub contents : SameContents D now fabric buffer w.remote w'.remote
    pub memory : w'.memory ≡ w.memory

  add : ℕ → Exec (Shared D now) Message (Unit {0})
  add client_id = do
    client ←
        create_client (in_process D now fabric buffer) args
          ((args.base_client_id + client_id % 2 ^ 32 + 1) % 2 ^ 32)
    (λ w. (ok tt, record w { clients = w.clients ++ client ∷ [] }))

  module _ (made : (id : ℕ) → IsMade id) where
    for_each-Joins :
        (n start : ℕ) (w : Shared D now)
        → w.remote.memory_pool ≡ pool
        → All P w.clients
        → (w' : Shared D now) × (for_each add (range_from start n) w ≡ (ok tt, w')) × Joins n w w'
    unfolding range_from add
    for_each-Joins zero start w at all =
        (w, refl, record { all = all; clients = omega arith; contents = refl; memory = refl })
    for_each-Joins (suc n) start w at all =
        let id : ℕ = (args.base_client_id + start % 2 ^ 32 + 1) % 2 ^ 32 in
        let (c, r, created, good, same) = made id w at in
        let w1 : Shared D now = record w { clients = w.clients ++ c ∷ []; remote = r } in
        let (w2, run, joined) =
          for_each-Joins n (start + 1) w1 (ap (λ (x : KvCacheServer D). x.memory_pool) same ∙ at)
            (All-append P w.clients (c ∷ []) all (good, tt)) in
        (
          w2,
          rw (created, add) run,
          record {
            all = joined.all;
            clients = omega (arith, joined.clients, length-append w.clients (c ∷ []));
            contents =
                joined.contents
                ∙ ap (λ (x : KvCacheServer D). record x { clients = w2.remote.clients }) same;
            memory = joined.memory;
          },
        )

    -- Creating the pool makes its clients, and changes no entry.
    pub create_clients-Joins :
        (w : Shared D now)
        → w.remote.memory_pool ≡ pool
        → All P w.clients
        → (w' : Shared D now) × (create_clients (in_process D now fabric buffer) args w
            ≡ (ok tt, w'))
          × Joins args.num_clients w w'
    unfolding create_clients add
    create_clients-Joins w = for_each-Joins args.num_clients 0 w
