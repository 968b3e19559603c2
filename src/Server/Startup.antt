-- ===== src/Server/Startup.antt =====
-- `run_server` of src/server.rs and src/bin/server.rs, without the logging and the runtime.
use kv_rdma_poc.Shared.{
  ℕ, ◌+◌, ◌≤◌, ◌*◌, ◌<◌, ◌≡◌, refl, true, none, List, Bool, Option, Outcome, ok, then_with, arith,
}
use kv_rdma_poc.Shared.Word.{word, mul64}
use kv_rdma_poc.Message.{Message}
use kv_rdma_poc.Transport.{TransportConfig, RdmaTransportTrait}
use kv_rdma_poc.Server.EntryMap.{DashMap, Key}
use kv_rdma_poc.Memory.Bytes.{Memory}
use kv_rdma_poc.Memory.Allocator
use kv_rdma_poc.Memory.Allocator.Conserve.{max_len}
use kv_rdma_poc.Server.Serving.{IsServing}
use kv_rdma_poc.Server.Fresh.{fresh, new-fresh, fresh-IsServing}
use kv_rdma_poc.Server.Room.{HasRoom}
use kv_rdma_poc.Server.{ServerConfig, KvCacheServer, new}

pub record Args : Type 0 where
  pub node_id : ℕ
  pub listen_addr : List ℕ
  pub memory_mb : ℕ
  pub num_domains : ℕ
  pub mock : Bool
  pub worker_threads : ℕ

-- What the binary is given: the parsing of a socket address, tonic's server with the limit of
-- requests on a connection, the build's fabric transport, and the address of the pool's buffer.
pub record Machine (D : DashMap) : Type 1 where
  pub SocketAddr : Type 0
  pub parse_addr : List ℕ → Outcome Message SocketAddr
  pub serve : (limit : ℕ) → KvCacheServer D → SocketAddr → Outcome Message (Unit {0})
  pub fabric : Option (TransportConfig → Outcome Message RdmaTransportTrait)
  pub buffer : ℕ

abbrev pub config_of : Args → ServerConfig
config_of args = record {
  node_id = args.node_id;
  listen_addr = args.listen_addr;
  memory_pool_size = mul64 (mul64 args.memory_mb 1024) 1024;
  transport = record {
    node_id = args.node_id;
    num_domains = args.num_domains;
    use_mock = args.mock;
  };
}

module _ (D : DashMap) (machine : Machine D) where
  unfoldable pub run_server : ServerConfig → Outcome Message (Unit {0})
  run_server config = then_with (machine.parse_addr config.listen_addr) (λ addr.
      then_with (new D machine.fabric config machine.buffer)
        (λ server. machine.serve 256 server addr))

  unfoldable pub run_with_config : Args → Outcome Message (Unit {0})
  unfolding run_server
  run_with_config args = run_server (config_of args)

  -- With the mock transport, an address that parses, a number of megabytes whose bytes leave a
  -- page to spare below max_len, and a buffer of them that is not null and does not wrap round,
  -- the server binary hands tonic, with a limit of 256 requests on a connection, a server that
  -- serves with any memory, has no entry, and has room for the megabytes that it was told.
  pub run_with_config_lem :
      (args : Args) (addr : machine.SocketAddr) (memory : Memory)
      → args.mock ≡ true
      → 0 < machine.buffer
      → args.memory_mb * 1024 * 1024 + 4096 ≤ max_len
      → machine.buffer + args.memory_mb * 1024 * 1024 < word
      → machine.parse_addr args.listen_addr ≡ ok addr
      → (server : KvCacheServer D) × (run_with_config args ≡ machine.serve 256 server addr)
        × IsServing {D = D} (record { server = server; memory = memory })
        × HasRoom server.memory_pool.allocator (args.memory_mb * 1024 * 1024)
        × ((k : Key) → D.get k server.cache ≡ none)
  unfolding run_with_config Allocator.new
  run_with_config_lem args addr memory mock not_null size addressed parsed = (
    fresh D (config_of args) machine.buffer,
    rw parsed (
        rw
          (new-fresh D machine.fabric (config_of args) machine.buffer memory mock not_null
            (omega arith) (omega arith))
          refl),
    fresh-IsServing D machine.fabric (config_of args) machine.buffer memory mock not_null
        (omega arith) (omega arith),
    record { above = (0, refl); room = omega arith },
    D.get-empty,
  )
