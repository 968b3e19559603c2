-- ===== src/Bench/Phases/Local/Clients.antt =====
-- The pool of clients of src/bin/bench.rs, and the phases that write and delete, one after another.
use kv_rdma_poc.Shared.{
  ℕ, ◌*◌, ◌<◌, ◌≡◌, refl, ap, ◌∙◌, List, [], Option, none, ok, length, Outcome, All, arith,
}
use kv_rdma_poc.Shared.Word.{word}
use kv_rdma_poc.Shared.Text.{range_from}
use kv_rdma_poc.Message.{Message}
use kv_rdma_poc.Transport.{TransportConfig, RdmaTransportTrait}
use kv_rdma_poc.Server.EntryMap.{DashMap, Key}
use kv_rdma_poc.Server.{KvCacheServer}
use kv_rdma_poc.Server.Room.{HasRoom}
use kv_rdma_poc.Bench.{Args}
use kv_rdma_poc.Bench.Share.Order.{Shuffle}
use kv_rdma_poc.Bench.Phases.{write_phase, create_clients, delete_phase}
use kv_rdma_poc.Bench.Phases.Local.{Shared, IsLocal}
use kv_rdma_poc.Bench.Phases.Local.Deleted.{delete_phase_lem}
use kv_rdma_poc.Bench.Phases.Local.Started.{in_process, HasBuffer, create_client-IsLocal}
use kv_rdma_poc.Bench.Phases.Local.Joined.{create_clients-Joins}
use kv_rdma_poc.Bench.Phases.Local.Stored.{CanWrite, IsWritten, write_phase_room}

module _ (D : DashMap) (now : ℕ)
    (fabric : Option (TransportConfig → Outcome Message RdmaTransportTrait)) (buffer : ℕ → ℕ)
    (args : Args) where
  -- Every client of the pool has a receive buffer.
  abbrev pub HaveBuffers : Type 0
  HaveBuffers = (id : ℕ) → HasBuffer D now fabric buffer args id

  module _ (value_size : ℕ) (keys : List Key) (order : List ℕ) (w : Shared D now) where
    -- With the mock transport, a receive buffer for every client, a serving host in the process
    -- that the clients connect to, values of whole pages and of at most 64 megabytes, room for
    -- every value above an aligned bump offset, as many keys as the arguments say, fewer than 2 ^
    -- 64, at least one worker and one client, the workers one after another in any order, and no
    -- client in the pool yet, the write phase gives every key the value, the pool then gets as
    -- many clients as asked while the entries stay, and the delete phase then counts every key as
    -- an operation and none as an error and leaves no key.
    pub write_create_delete :
        CanWrite D now fabric buffer args value_size keys w
        → HasRoom w.remote.memory_pool.allocator (length keys * value_size)
        → HaveBuffers
        → args.num_keys ≡ length keys
        → length keys < word
        → 0 < args.num_workers
        → 0 < args.num_clients
        → Shuffle (range_from 0 args.num_workers) order
        → w.clients ≡ []
        → (w1 w2 w3 : Shared D now) × (write_phase
              (in_process D now fabric buffer)
              args
              value_size
              keys
              w
            ≡ (ok tt, w1))
          × IsWritten D now fabric buffer args value_size keys w w1
          × (create_clients (in_process D now fabric buffer) args w1 ≡ (ok tt, w2))
          × (length w2.clients ≡ args.num_clients)
          × (w2.remote.cache ≡ w1.remote.cache)
          × (delete_phase args keys order w2 ≡ (ok (args.num_keys, 0), w3))
          × All (λ key. D.get key w3.remote.cache ≡ none) keys
    write_create_delete can room buffers same small some_worker some_client shuffled new =
        let (w1, wrote, written) =
          write_phase_room D now fabric buffer args value_size keys w can room in
        let start : w1.clients ≡ [] = written.0 ∙ new in
        let (w2, created, joined) =
          create_clients-Joins D now fabric buffer args w1.remote.memory_pool (IsLocal D now)
            (λ id w at. create_client-IsLocal D now fabric buffer args id w can.0 (buffers id)) w1
            refl (rw start tt) in
        let many : length w2.clients ≡ args.num_clients =
          omega (arith, joined.clients, ap (λ (cs : List _). length cs) start) in
        let (w3, deleted, gone, _) =
          delete_phase_lem D now args keys order w2 same small some_worker shuffled
            (omega (arith, many)) joined.all in
        (
          w1,
          w2,
          w3,
          wrote,
          written,
          created,
          many,
          ap (λ (x : KvCacheServer D). x.cache) joined.contents,
          deleted,
          gone,
        )
