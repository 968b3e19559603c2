-- ===== src/Server/Fresh.antt =====
-- A server that `KvCacheServer::new` has just made.
use kv_rdma_poc.Shared.{◌+◌, ◌<◌, ◌≤◌, ◌≡◌, ℕ, refl, true, ok, Option, Outcome, arith, some, []}
use kv_rdma_poc.Shared.Word.{word}
use kv_rdma_poc.Message.{Message}
use kv_rdma_poc.Memory.Bytes.{Memory}
use kv_rdma_poc.Memory.FreeList.{cover}
use kv_rdma_poc.Memory.Allocator
use kv_rdma_poc.Memory.Allocator.Conserve.{max_len}
use kv_rdma_poc.Memory.Pool
use kv_rdma_poc.Protocol.{CacheEntry, new_descriptor}
use kv_rdma_poc.Transport.{TransportConfig, RdmaTransportTrait}
use kv_rdma_poc.Transport.Mock
use kv_rdma_poc.Transport.Mock.{MockTransport, mock_trait, new_transport}
use kv_rdma_poc.Transport.Mock.Copies.{Delivers, mock-Delivers}
use kv_rdma_poc.Server.EntryMap.{DashMap, Key}
use kv_rdma_poc.Server.{ServerConfig, KvCacheServer, new}
use kv_rdma_poc.Server.Consistent.{IsConsistent}
use kv_rdma_poc.Server.Serving.{IsServing}

module _ (D : DashMap) (config : ServerConfig) (buffer : ℕ) where
  abbrev pub node_config : TransportConfig
  node_config = record config.transport { node_id = config.node_id }

  -- The server that `new` makes with the mock transport.
  abbrev pub fresh : KvCacheServer D
  fresh = record {
    config = config;
    transport = record { inner = mock_trait (Mock.new node_config); config = node_config };
    memory_pool = record {
      buffer = buffer;
      buffer_len = config.memory_pool_size;
      handle = record { ptr = buffer; len = config.memory_pool_size };
      descriptor =
          new_descriptor buffer (Mock.enumerate_keys 0 (Mock.new node_config).domain_addresses);
      allocator = Allocator.new config.memory_pool_size 4096;
    };
    cache = D.empty;
    clients = [];
  }

module _ (D : DashMap) (fabric : Option (TransportConfig → Outcome Message RdmaTransportTrait))
    (config : ServerConfig) (buffer : ℕ) (memory : Memory) (mock : config.transport.use_mock ≡ true)
    (not_null : 0 < buffer) (size : config.memory_pool_size + 4096 ≤ max_len)
    (addressed : buffer + config.memory_pool_size < word) where
  none_cached : {A : Type 0} (k : Key) (e : CacheEntry) → D.get k D.empty ≡ some e → A
  none_cached k e found = absurd (impossible found)
    where
      impossible : D.get k D.empty ≡ some e → ⊥
      impossible found = cc (D.get-empty k)

  pub fresh-IsConsistent :
      IsConsistent {D = D} (record { server = fresh D config buffer; memory = memory })
  unfolding Allocator.new cover
  fresh-IsConsistent = record {
    registered = record {
      well_formed = record {
        aligned = record { bits = 12; bits_le = omega arith; is_pow = refl };
        sorted = tt;
        bounded = omega arith;
        small = size;
        within = tt;
      };
      whole = refl;
      base = refl;
      not_null = not_null;
      addressed = addressed;
    };
    free = λ x. omega arith;
    bytes = λ k e found. none_cached k e found;
    bound = λ k e found. none_cached k e found;
    owned = λ k e x found. none_cached k e found;
    apart = λ k j e f x ne found _. none_cached k e found;
  }

  pub new-fresh : new D fabric config buffer ≡ ok (fresh D config buffer)
  unfolding new Mock.new_transport Pool.new Pool.register Allocator.new mock_trait
      Mock.register_memory
  new-fresh = rw mock refl

  pub fresh-IsServing :
      IsServing {D = D} (record { server = fresh D config buffer; memory = memory })
  fresh-IsServing = record {
    consistent = fresh-IsConsistent;
    delivers = mock-Delivers (Mock.new (node_config D config buffer));
    free_units = unfold Allocator.new in tt;
    entry_units = λ k e found. none_cached k e found;
  }

  -- With the mock transport, a pool that leaves a page to spare below max_len, and a buffer that
  -- is not null and does not wrap round, new makes a server that is consistent with any memory and
  -- whose transport delivers.
  pub new-IsConsistent :
      (server : KvCacheServer D) × (new D fabric config buffer ≡ ok server)
      × IsConsistent {D = D} (record { server = server; memory = memory })
      × Delivers server.transport.inner
  new-IsConsistent = (
    fresh D config buffer,
    new-fresh,
    fresh-IsConsistent,
    mock-Delivers (Mock.new (node_config D config buffer)),
  )
