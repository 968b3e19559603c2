-- ===== src/Server.antt =====
-- `KvCacheServer` of src/server.rs and its request handlers. The map of entries is a parameter, the
-- transport is a field, and `now` is what the clock shows during the call. A call runs on its own:
-- its locks are held from the first use to the last.
pub mod EntryMap
pub mod Service
pub mod Consistent
pub mod Put
pub mod Stored
pub mod Get
pub mod Delete
pub mod Fresh
pub mod Serving
pub mod History
pub mod Abstract
pub mod Refine
pub mod Room
pub mod Startup
pub mod Threads
use kv_rdma_poc.Shared.{
  ℕ, ◌*◌, Bool, true, false, not, List, [], ◌∷◌, Option, none, some, map, ◌==◌, if◌then◌else◌,
  length, Outcome, ok, err, panic, Exec, pure, fail, map_err, ◌>>=◌, ◌>>◌,
}
use kv_rdma_poc.Shared.Text.{codes}
use kv_rdma_poc.Message.{
  Message, empty, key_not_found, key_expired, unknown_error, missing_location, missing_value,
  not_implemented, transfer_failed, Status, status, not_found, internal, invalid_argument,
  unimplemented,
}
use kv_rdma_poc.Protocol.{
  DomainAddress, ValueLocation, CacheEntry, new_entry, is_expired, len, location_from_pb,
}
use kv_rdma_poc.Protocol.Pb
use kv_rdma_poc.Protocol.Pb.{inline_value, rdma_location}
use kv_rdma_poc.Memory.Bytes.{Memory}
use kv_rdma_poc.Memory.Pool
use kv_rdma_poc.Memory.Pool.{MemoryPool, PoolAllocation}
use kv_rdma_poc.Transport
use kv_rdma_poc.Transport.{
  TransportConfig, TransferRequest, TransferResult, RdmaTransportTrait, RdmaTransport,
  default_routing,
}
use kv_rdma_poc.Transport.Mock.{new_transport}
use EntryMap.{DashMap, Key}

pub record ServerConfig : Type 0 where
  pub node_id : ℕ
  pub listen_addr : List ℕ
  pub memory_pool_size : ℕ
  pub transport : TransportConfig

abbrev pub default_config : ServerConfig
default_config = record {
  node_id = 0;
  listen_addr = codes "[::1]:50051";
  memory_pool_size = 1024 * 1024 * 1024;
  transport = Transport.default_config;
}

pub record RegisteredClient : Type 0 where
  pub client_id : ℕ
  pub domain_addresses : List DomainAddress
  pub receive_buffer_size : ℕ

pub record KvCacheServer (D : DashMap) : Type 0 where
  pub config : ServerConfig
  pub transport : RdmaTransport
  pub memory_pool : MemoryPool
  pub cache : D.Map
  pub clients : List (ℕ × RegisteredClient)

-- The server and the memory of the process that it runs in.
pub record Host (D : DashMap) : Type 0 where
  pub server : KvCacheServer D
  pub open server use *
  pub memory : Memory

-- `HashMap::insert`
unfoldable pub insert_client :
    ℕ → RegisteredClient → List (ℕ × RegisteredClient) → List (ℕ × RegisteredClient)
insert_client id c [] = (id, c) ∷ []
insert_client id c ((j, d) ∷ m) = if id == j then (id, c) ∷ m else (j, d) ∷ insert_client id c m

module _ (D : DashMap) where
  abbrev pub set_pool : MemoryPool → Host D → Host D
  set_pool pool h = record h { server = record h.server { memory_pool = pool } }

  abbrev pub set_cache : D.Map → Host D → Host D
  set_cache cache h = record h { server = record h.server { cache = cache } }

  -- An action on the pool, under its lock.
  abbrev pub on_pool : {A : Type 0} → Exec MemoryPool Message A → Exec (Host D) Message A
  on_pool m h = let (r, pool) = m h.memory_pool in (r, set_pool pool h)

  abbrev pub on_memory : {E A : Type 0} → (Host D → Exec Memory E A) → Exec (Host D) E A
  on_memory m h = let (r, memory) = m h h.memory in (r, record h { memory = memory })

  unfoldable pub new :
      Option (TransportConfig → Outcome Message RdmaTransportTrait)
      → ServerConfig
      → (buffer : ℕ) → Outcome Message (KvCacheServer D)
  new fabric config buffer =
      elim (new_transport fabric (record config.transport { node_id = config.node_id })) [
        | err m ↦ err m
        | panic ↦ panic
        | ok transport ↦
            elim (Pool.new (record { size = config.memory_pool_size; alignment = 4096 })
              (some transport) buffer) [
                | err m ↦ err m
                | panic ↦ panic
                | ok pool ↦ ok (record {
                  config = config;
                  transport = transport;
                  memory_pool = pool;
                  cache = D.empty;
                  clients = [];
                })
              ]
      ]

  -- The memory of an entry that has left the map.
  unfoldable pub release : CacheEntry → Host D → Host D
  unfolding len
  release old h =
      set_pool
        (Pool.deallocate (record { offset = old.offset; size = len old; ptr = 0 }) h.memory_pool) h

  unfoldable pub store_entry : Key → CacheEntry → Exec (Host D) Message (Unit {0})
  unfolding release
  store_entry key entry h =
      let (old, cache) = D.insert key entry h.cache in
      elim old [
        | none ↦ (ok tt, set_cache cache h)
        | some e ↦ (ok tt, release e (set_cache cache h))
      ]

  unfoldable pub put_value : Key → List ℕ → ℕ → ℕ → Exec (Host D) Message (Unit {0})
  unfolding new_entry store_entry
  put_value key value ttl_seconds now = do
    allocation ← on_pool (Pool.allocate (length value))
    on_memory (λ h. Pool.write h.memory_pool allocation.offset value)
    store_entry key (new_entry value allocation.offset ttl_seconds now)

  unfoldable pub transfer_request : Host D → CacheEntry → ValueLocation → TransferRequest
  unfolding len
  transfer_request h entry loc = record {
    src_handle = h.memory_pool.handle;
    src_offset = entry.offset;
    length = len entry;
    imm_data = none;
    dst_descriptor = loc.mr_descriptor;
    dst_offset = loc.offset;
    routing = default_routing;
  }

  abbrev pub error_or_unknown : Option Message → Message
  error_or_unknown none = unknown_error
  error_or_unknown (some m) = m

  -- The transfer, after the reference to the entry is dropped.
  unfoldable pub transfer : CacheEntry → ValueLocation → Exec (Host D) Status ℕ
  unfolding transfer_request
  transfer entry loc = do
    result ← on_memory (λ h m.
        map_err (λ e. status internal (transfer_failed e))
          (h.transport.inner.submit_transfer_async (transfer_request h entry loc) m))
    if result.success
        then pure (len entry)
        else fail (status internal (error_or_unknown result.error))

  unfoldable pub get_and_transfer : Key → ValueLocation → ℕ → Exec (Host D) Status ℕ
  unfolding transfer
  get_and_transfer key loc now h = elim (D.get key h.cache) [
    | none ↦ (err (status not_found key_not_found), h)
    | some entry ↦
        if is_expired entry now
        then (err (status not_found key_expired), set_cache (D.remove key h.cache).1 h)
        else transfer entry loc h
  ]

  unfoldable pub delete_value : Key → Host D → Bool × Host D
  unfolding release
  delete_value key h =
      let (removed, cache) = D.remove key h.cache in
      elim removed [
        | none ↦ (false, set_cache cache h)
        | some (k, e) ↦ (true, release e (set_cache cache h))
      ]
