-- ===== src/Client/Fresh.antt =====
-- A client that `KvCacheClient::new` has just made.
use kv_rdma_poc.Shared.{ℕ, ◌+◌, ◌<◌, ◌≤◌, ◌≡◌, refl, true, ok, [], Option, none, Outcome, arith}
use kv_rdma_poc.Shared.Word.{word}
use kv_rdma_poc.Message.{Message}
use kv_rdma_poc.Memory.Allocator
use kv_rdma_poc.Memory.Allocator.Conserve.{max_len}
use kv_rdma_poc.Memory.Pool
use kv_rdma_poc.Protocol.{new_descriptor}
use kv_rdma_poc.Transport.{TransportConfig, RdmaTransportTrait}
use kv_rdma_poc.Transport.Mock
use kv_rdma_poc.Transport.Mock.{mock_trait}
use kv_rdma_poc.Client.{ClientConfig, KvCacheClient, new}
use kv_rdma_poc.Client.Get.Local.{IsReceiving}

-- With the mock transport, a buffer that leaves a page to spare below max_len, is not null and
-- does not wrap round, new makes a client that is not connected, has no request in flight, and
-- whose pool is ready to receive.
pub new-IsReceiving :
    {R : Type 0} (fabric : Option (TransportConfig → Outcome Message RdmaTransportTrait))
    (config : ClientConfig) (buffer : ℕ)
    → config.transport.use_mock ≡ true
    → 0 < buffer
    → config.receive_buffer_size + 4096 ≤ max_len
    → buffer + config.receive_buffer_size < word
    → (client : KvCacheClient R) × (new fabric config buffer ≡ ok client)
      × (client.grpc_client ≡ none)
      × (client.pending ≡ [])
      × IsReceiving client.memory_pool
      × (client.memory_pool.allocator ≡ Allocator.new config.receive_buffer_size 4096)
      × (client.memory_pool.buffer ≡ buffer)
      × (client.memory_pool.buffer_len ≡ config.receive_buffer_size)
unfolding new Mock.new_transport Pool.new Pool.register Allocator.new mock_trait
    Mock.register_memory
new-IsReceiving {R} fabric config buffer mock not_null size addressed = (
  client,
  rw mock refl,
  refl,
  refl,
  record {
    well_formed = record {
      aligned = record { bits = 12; bits_le = omega arith; is_pow = refl };
      sorted = tt;
      bounded = omega arith;
      small = size;
      within = tt;
    };
    can_serve = tt;
    whole = refl;
    base = unfold new_descriptor in refl;
    not_null = not_null;
    addressed = addressed;
  },
  refl,
  refl,
  refl,
)
  where
    node_config : TransportConfig
    node_config = record config.transport { node_id = config.client_id }

    client : KvCacheClient R
    client = record {
      config = config;
      grpc_client = none;
      transport = record { inner = mock_trait (Mock.new node_config); config = node_config };
      memory_pool = record {
        buffer = buffer;
        buffer_len = config.receive_buffer_size;
        handle = record { ptr = buffer; len = config.receive_buffer_size };
        descriptor =
            new_descriptor buffer (Mock.enumerate_keys 0 (Mock.new node_config).domain_addresses);
        allocator = Allocator.new config.receive_buffer_size 4096;
      };
      pending = [];
      request_counter = 0;
      server_info = none;
    }
