-- ===== src/Examples/ClientRuns.antt =====
-- The theorems on the client at concrete inputs.
use kv_rdma_poc.Shared.{
  ℕ, ◌≡◌, refl, inr, true, false, [], none, some, arith, Outcome, ok, err, panic,
}
use kv_rdma_poc.Message.{Message, Status, status, internal, empty, key_not_found, rpc_failed}
use kv_rdma_poc.Protocol.{is_expired}
use kv_rdma_poc.Protocol.Pb
use kv_rdma_poc.Memory.Bytes.{load}
use kv_rdma_poc.Memory.Align.{align_up}
use kv_rdma_poc.Memory.Allocator
use kv_rdma_poc.Memory.Allocator.{BumpAllocator, first_fit}
use kv_rdma_poc.Memory.Pool.{MemoryPool}
use kv_rdma_poc.Transport.Mock
use kv_rdma_poc.Transport.Mock.{mock_trait}
use kv_rdma_poc.Transport.Mock.Copies.{mock-Delivers}
use kv_rdma_poc.Server.{KvCacheServer}
use kv_rdma_poc.Server.Service.{get_response}
use kv_rdma_poc.Server.Consistent.{IsConsistent}
use kv_rdma_poc.Server.Fresh.{node_config}
use kv_rdma_poc.Client.{
  ClientConfig, KvCacheClient, KvCacheServiceClient, Process, get, get_pending,
}
use kv_rdma_poc.Client.Get.{in_flight, done, get_rpc_failed, get_successful}
use kv_rdma_poc.Client.Get.Local.{host, local_stub, IsReceiving, received, get_local}
use kv_rdma_poc.Examples.Setup.{entries, mock_config, zeroed, server_config, server_address}
use kv_rdma_poc.Examples.ServerRuns.{key_a, value_a, entry_a, stored, stored-IsConsistent}

abbrev pub client_config : ClientConfig
client_config = record {
  client_id = 2;
  server_addr = [];
  receive_buffer_size = 2097152;
  transport = mock_config;
}

abbrev pub pool_at : ℕ → MemoryPool
pool_at offset = record {
  buffer = 5000000;
  buffer_len = 2097152;
  handle = record { ptr = 5000000; len = 2097152 };
  descriptor = record { ptr = 5000000; addr_rkey_list = [] };
  allocator = record { offset = offset; capacity = 2097152; alignment = 4096; free_list = [] };
}

abbrev pub client_of : {R : Type 0} → KvCacheServiceClient R → KvCacheClient R
client_of s = record {
  config = client_config;
  grpc_client = some s;
  transport = record { inner = mock_trait (Mock.new mock_config); config = mock_config };
  memory_pool = pool_at 0;
  pending = [];
  request_counter = 0;
  server_info = none;
}

pub pool-IsReceiving : IsReceiving (pool_at 0)
pool-IsReceiving = record {
  well_formed = record {
    aligned = record { bits = 12; bits_le = omega arith; is_pow = refl };
    sorted = tt;
    bounded = omega arith;
    small = omega arith;
    within = tt;
  };
  can_serve = tt;
  whole = refl;
  base = refl;
  not_null = omega arith;
  addressed = omega arith;
}

-- What the client's allocator does with a request for a megabyte.
pub given :
    Allocator.allocate {E = Message} 1048576 (pool_at 0).allocator
    ≡ (ok (some 0), (pool_at 1048576).allocator)
unfolding Allocator.allocate Allocator.bump first_fit align_up
given = refl

abbrev process : Process (KvCacheServer entries)
process = record {
  client = client_of (local_stub entries 5);
  remote = stored.server;
  memory = stored.memory;
}

get_local_example :
    (get key_a process ≡ (
      ok value_a,
      done key_a process
          (local_stub entries 5)
          0
          (pool_at 1048576).allocator
          stored.server
          (received entries 5 key_a process 0 (pool_at 1048576).allocator entry_a),
    ))
    × IsConsistent (
        host entries stored.server
          (received entries 5 key_a process 0 (pool_at 1048576).allocator entry_a))
unfolding get_pending is_expired
get_local_example =
    get_local entries 5 key_a process 0 (pool_at 1048576).allocator entry_a refl stored-IsConsistent
      (mock-Delivers (Mock.new (node_config entries server_config server_address))) pool-IsReceiving
      (inr (omega arith)) refl given refl refl (omega arith)

-- A server that gives one answer to every get.
abbrev pub answering : Outcome Status Pb.GetResponse → KvCacheServiceClient (Unit {0})
answering o = record {
  get = λ _ s. (o, s);
  put = λ _ s. (panic, s);
  delete = λ _ s. (panic, s);
  register_client = λ _ s. (panic, s);
  heartbeat = λ _ s. (panic, s);
}

abbrev pub asking : Outcome Status Pb.GetResponse → Process (Unit {0})
asking o = record { client = client_of (answering o); remote = tt; memory = zeroed }

abbrev pub down : Outcome Status Pb.GetResponse
down = err (status internal empty)

get_rpc_failed_example : get key_a (asking down) ≡ (
  err (rpc_failed internal empty),
  in_flight key_a (asking down) (answering down) 0 (pool_at 1048576).allocator tt zeroed,
)
get_rpc_failed_example =
    get_rpc_failed key_a (asking down) (answering down) 0 (pool_at 1048576).allocator refl given
      (status internal empty) tt zeroed refl

abbrev refused : Outcome Status Pb.GetResponse
refused = ok (get_response false 0 key_not_found 0)

abbrev delivered : Outcome Status Pb.GetResponse
delivered = ok (get_response true 3 empty 0)

get_successful_example : get key_a (asking delivered) ≡ (
  ok (load zeroed 5000000 3),
  done key_a (asking delivered) (answering delivered) 0 (pool_at 1048576).allocator tt zeroed,
)
unfolding get_pending
get_successful_example =
    get_successful key_a (asking delivered) (answering delivered) 0 (pool_at 1048576).allocator refl
      given (get_response true 3 empty 0) tt zeroed refl refl refl (omega arith) (omega arith)
