-- ===== src/Bench/Phases/Local.antt =====
-- The phases of src/bin/bench.rs with the server in the same process.
pub mod Cleared
pub mod Deleted
pub mod Started
pub mod Room
pub mod Stored
pub mod Joined
pub mod Clients
pub mod Sampled
pub mod Ready
pub mod Whole
pub mod Written
pub mod Read
use kv_rdma_poc.Shared.{ℕ, ◌<◌, ◌≡◌, refl, List, none, some, length, ok, All, Option, Outcome, Exec}
use kv_rdma_poc.Message.{Message}
use kv_rdma_poc.Memory.Bytes.{Memory}
use kv_rdma_poc.Protocol.{CacheEntry}
use kv_rdma_poc.Server.EntryMap.{DashMap, Key}
use kv_rdma_poc.Server.{KvCacheServer, Host, delete_value}
use kv_rdma_poc.Server.Service
use kv_rdma_poc.Server.Delete.{is_some, delete_value_lem, after_delete}
use kv_rdma_poc.Client
use kv_rdma_poc.Client.{KvCacheClient, Process}
use kv_rdma_poc.Client.Get.Local.{host, local_stub}
use kv_rdma_poc.Bench.{World, nth, set_nth, on_client}
use kv_rdma_poc.Bench.Index.{nth-some, nth-All, set_nth-nth}

-- A call that leaves the client as it is.
pub on_client_same :
    {R A : Type 0} (i : ℕ) (m : Exec (Process R) Message A) (w : World R) (c : KvCacheClient R)
    (r : Outcome Message A) (remote : R) (memory : Memory)
    → nth w.clients i ≡ some c
    → m (record { client = c; remote = w.remote; memory = w.memory })
      ≡ (r, record { client = c; remote = remote; memory = memory })
    → on_client i m w ≡ (r, record w { remote = remote; memory = memory })
on_client_same i m w c r remote memory e run =
    rw (e, on_client) (rw run (rw (set_nth-nth w.clients i c e) refl))

module _ (D : DashMap) (now : ℕ) where
  abbrev pub Shared : Type 0
  Shared = World (KvCacheServer D)

  -- A client that is connected to the server of this process.
  abbrev pub IsLocal : KvCacheClient (KvCacheServer D) → Type 0
  IsLocal c = c.grpc_client ≡ some (local_stub D now)

  abbrev pub entry : Shared → Key → Option CacheEntry
  entry w key = D.get key w.remote.cache

  abbrev pub serving : Shared → Host D
  serving w = host D w.remote w.memory

  unfoldable pub without : Key → Shared → Shared
  without key w = record w {
    remote = (after_delete D key (serving w)).server;
    memory = (after_delete D key (serving w)).memory;
  }

  delete_local :
      (key : Key) (p : Process (KvCacheServer D))
      → IsLocal p.client
      → Client.delete key p ≡ (
        ok (is_some (D.get key p.remote.cache)),
        record p {
          remote = (after_delete D key (host D p.remote p.memory)).server;
          memory = (after_delete D key (host D p.remote p.memory)).memory;
        },
      )
  unfolding Client.delete Service.delete
  delete_local key p local =
      rw (local, delete_value_lem D key (host D p.remote p.memory), Client.delete) refl

  pub on_client-delete :
      (key : Key) (i : ℕ) (w : Shared)
      → All IsLocal w.clients
      → i < length w.clients
      → on_client i (Client.delete key) w ≡ (ok (is_some (entry w key)), without key w)
  unfolding without
  on_client-delete key i w local within =
      let (c, e) = nth-some w.clients i within in
      on_client_same i (Client.delete key) w c _ _ _ e (
        delete_local key (record { client = c; remote = w.remote; memory = w.memory })
          (nth-All IsLocal w.clients i e local))
