-- ===== src/Client.antt =====
-- `KvCacheClient` of src/client.rs. What lies behind the channel is a state `R` that the stub's calls
-- act on, together with the memory that the server writes values to.
mod Pending
pub mod Get
pub mod Fresh
pub mod Put
pub mod Surroundings
use kv_rdma_poc.Shared.{
  ℕ, ◌+◌, ◌*◌, ◌%◌, Bool, true, false, List, [], ◌∷◌, Option, none, some, map, ltb, ◌==◌,
  if◌then◌else◌, length, Outcome, ok, err, panic, Exec, pure, fail, map_err, ◌>>=◌, ◌>>◌,
}
use kv_rdma_poc.Shared.Text.{codes}
use kv_rdma_poc.Shared.Word.{add64}
use kv_rdma_poc.Message.{
  Message, rpc_failed, not_connected, not_registered, request_not_found, value_too_large,
  get_failed, put_failed, Status,
}
use kv_rdma_poc.Protocol.{DomainAddress, ValueLocation, location_to_pb}
use kv_rdma_poc.Protocol.Pb
use kv_rdma_poc.Protocol.Pb.{inline_value}
use kv_rdma_poc.Memory.Bytes.{Memory}
use kv_rdma_poc.Memory.Pool
use kv_rdma_poc.Memory.Pool.{MemoryPool, PoolAllocation, PoolStats}
use kv_rdma_poc.Transport
use kv_rdma_poc.Transport.{TransportConfig, RdmaTransportTrait, RdmaTransport}
use kv_rdma_poc.Transport.Mock.{new_transport}
pub use Pending.{PendingAllocation}
unfoldable pub use Pending.{insert_pending, get_pending, remove_pending}

pub record ClientConfig : Type 0 where
  pub client_id : ℕ
  pub server_addr : List ℕ
  pub receive_buffer_size : ℕ
  pub transport : TransportConfig

abbrev pub default_config : ClientConfig
default_config = record {
  client_id = 1;
  server_addr = codes "http://[::1]:50051";
  receive_buffer_size = 64 * 1024 * 1024;
  transport = Transport.default_config;
}

pub record ServerInfo : Type 0 where
  pub server_id : ℕ
  pub domain_addresses : List DomainAddress

-- The generated stub: one call for each method of the service.
pub record KvCacheServiceClient (R : Type 0) : Type 0 where
  pub get : Pb.GetRequest → Exec (R × Memory) Status Pb.GetResponse
  pub put : Pb.PutRequest → Exec (R × Memory) Status Pb.PutResponse
  pub delete : Pb.DeleteRequest → Exec (R × Memory) Status Pb.DeleteResponse
  pub register_client :
      Pb.RegisterClientRequest → Exec (R × Memory) Status Pb.RegisterClientResponse
  pub heartbeat : Pb.HeartbeatRequest → Exec (R × Memory) Status Pb.HeartbeatResponse

pub record KvCacheClient (R : Type 0) : Type 0 where
  pub config : ClientConfig
  pub grpc_client : Option (KvCacheServiceClient R)
  pub transport : RdmaTransport
  pub memory_pool : MemoryPool
  pub pending : List (ℕ × PendingAllocation)
  pub request_counter : ℕ
  pub server_info : Option ServerInfo

-- The client, what it talks to, and the memory of its process.
pub record Process (R : Type 0) : Type 0 where
  pub client : KvCacheClient R
  pub open client use *
  pub remote : R
  pub memory : Memory

abbrev pub max_value_size : ℕ
max_value_size = 1024 * 1024

abbrev pub max_inline_size : ℕ
max_inline_size = 64 * 1024 * 1024

unfoldable pub new :
    {R : Type 0}
    → Option (TransportConfig → Outcome Message RdmaTransportTrait)
    → ClientConfig
    → (buffer : ℕ) → Outcome Message (KvCacheClient R)
new fabric config buffer =
    elim (new_transport fabric (record config.transport { node_id = config.client_id })) [
      | err m ↦ err m
      | panic ↦ panic
      | ok transport ↦
          elim (Pool.new (record { size = config.receive_buffer_size; alignment = 4096 })
            (some transport) buffer) [
              | err m ↦ err m
              | panic ↦ panic
              | ok pool ↦ ok (record {
                config = config;
                grpc_client = none;
                transport = transport;
                memory_pool = pool;
                pending = [];
                request_counter = 0;
                server_info = none;
              })
            ]
    ]

module _ {R : Type 0} where
  abbrev pub set_client : KvCacheClient R → Process R → Process R
  set_client c p = record p { client = c }

  -- A call of the stub. A `Status` becomes an error by `?`.
  abbrev pub call : {A : Type 0} → Exec (R × Memory) Status A → Exec (Process R) Message A
  call m p =
      let (r, s) = m (p.remote, p.memory) in
      map_err (λ (e : Status). rpc_failed e.code e.message)
        (r, record p { remote = s.0; memory = s.1 })

  -- `lock().clone().ok_or_else(..)`
  unfoldable pub stub : Exec (Process R) Message (KvCacheServiceClient R)
  stub p = elim p.grpc_client [ none ↦ (err not_connected, p) | some s ↦ (ok s, p) ]

  -- `fetch_add`
  unfoldable pub next_request_id : Exec (Process R) Message ℕ
  next_request_id p = (
    ok p.request_counter,
    set_client (record p.client { request_counter = add64 p.request_counter 1 }) p,
  )

  unfoldable pub allocate_buffer : Exec (Process R) Message PoolAllocation
  allocate_buffer p =
      let (r, pool) = Pool.allocate max_value_size p.memory_pool in
      (r, set_client (record p.client { memory_pool = pool }) p)

  unfoldable pub free_buffer : PendingAllocation → Exec (Process R) Message (Unit {0})
  free_buffer a p = (
    ok tt,
    set_client (record p.client { memory_pool = Pool.deallocate a.allocation p.memory_pool }) p,
  )

  unfoldable pub track : ℕ → PoolAllocation → Exec (Process R) Message (Unit {0})
  unfolding insert_pending
  track id a p = (
    ok tt,
    set_client
        (record p.client {
          pending =
              insert_pending id (record { allocation = a; expected_length = max_value_size })
                p.pending;
        })
        p,
  )

  unfoldable pub untrack : ℕ → Exec (Process R) Message PendingAllocation
  untrack id p = elim (get_pending id p.pending) [
    | none ↦ (err (request_not_found id), p)
    | some a ↦ (ok a, set_client (record p.client { pending = remove_pending id p.pending }) p)
  ]

  unfoldable pub response_location : Process R → PoolAllocation → ValueLocation
  response_location p a = record {
    node_id = p.config.client_id;
    mr_descriptor = p.memory_pool.descriptor;
    offset = a.offset;
    length = max_value_size;
  }

  unfoldable pub get_request : List ℕ → ℕ → PoolAllocation → Process R → Pb.GetRequest
  get_request key id a p = record {
    key = key;
    response_location = some (location_to_pb (response_location p a));
    request_id = id;
  }

  unfoldable pub read_value : PendingAllocation → ℕ → Exec (Process R) Message (List ℕ)
  read_value a n p = (Pool.read p.memory_pool a.allocation.offset n p.memory, p)

  -- What follows the response: the buffer is freed, after the value has been read from it.
  unfoldable pub finish_get : PendingAllocation → Pb.GetResponse → Exec (Process R) Message (List ℕ)
  unfolding free_buffer read_value
  finish_get a response =
      if response.success
      then (do value ← read_value a response.value_length; free_buffer a; pure value)
      else (do free_buffer a; fail (get_failed response.error_message))

  unfoldable pub get : List ℕ → Exec (Process R) Message (List ℕ)
  unfolding stub next_request_id allocate_buffer track untrack finish_get
  get key = do
    client ← stub
    request_id ← next_request_id
    allocation ← allocate_buffer
    track request_id allocation
    response ← (λ p. call (client.get (get_request key request_id allocation p)) p)
    pending ← untrack request_id
    finish_get pending response

  unfoldable pub put : List ℕ → List ℕ → ℕ → Exec (Process R) Message (Unit {0})
  unfolding stub
  put key value ttl_seconds = do
    client ← stub
    if ltb max_inline_size (length value) then fail (value_too_large (length value)) else do
      response ← call (
          client.put (record {
            key = key;
            value_source = some (inline_value value);
            ttl_seconds = ttl_seconds;
          }))
      if response.success then pure tt else fail (put_failed response.error_message)

  unfoldable pub delete : List ℕ → Exec (Process R) Message Bool
  unfolding stub
  delete key = do
    client ← stub
    response ← call (client.delete (record { key = key }))
    pure response.key_existed

  unfoldable pub heartbeat : Exec (Process R) Message Bool
  unfolding stub
  heartbeat = do
    client ← stub
    response ← (λ p. call (client.heartbeat (record { client_id = p.config.client_id })) p)
    pure response.alive

  -- `connect_channel` is tonic's: it makes a stub for an address, or fails.
  unfoldable pub connect :
      (List ℕ → Outcome Message (KvCacheServiceClient R)) → Exec (Process R) Message (Unit {0})
  connect connect_channel = do
    client ← (λ p. (connect_channel p.config.server_addr, p))
    response ← (λ p.
        call
          (client.register_client (record {
            client_id = p.config.client_id;
            domain_addresses =
                map (λ (a : DomainAddress). a.bytes) p.transport.inner.domain_addresses;
            receive_buffer_size = p.config.receive_buffer_size;
          }))
          p)
    if response.success
        then (λ p. (
          ok tt,
          set_client
              (record p.client {
                server_info = some (record {
                  server_id = response.server_id;
                  domain_addresses =
                      map (λ (a : List ℕ). record { bytes = a }) response.server_domain_addresses;
                });
                grpc_client = some client;
              })
              p,
        ))
        else fail not_registered

  unfoldable pub is_connected : Process R → Bool
  is_connected p = elim p.grpc_client [ none ↦ false | some _ ↦ true ]

  unfoldable pub memory_stats : Process R → PoolStats
  memory_stats p = Pool.stats p.memory_pool
