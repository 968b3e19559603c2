-- ===== src/Message.antt =====
-- The errors of the code: `tonic::Status` and the texts of `anyhow::Error`.
use kv_rdma_poc.Shared.{ℕ, List}
use kv_rdma_poc.Shared.Parse.{IntError}

-- The codes of `tonic::Status` that the code builds or passes on.
pub data Code : Type 0 where
  not_found internal invalid_argument unimplemented : Code
  other : ℕ → Code

-- One constructor for each format string of the code.
pub data Message : Type 0 where
  -- `String::new()`
  empty : Message
  -- src/memory.rs
  pool_exhausted write_exceeds_pool read_exceeds_pool : Message
  -- src/transport.rs
  rdma_not_available : Message
  null_pointer : ℕ → ℕ → Message
  invalid_pointer : Message
  register_failed submit_failed : Message → Message
  no_domains few_cpus : Message
  few_numa_cpus : ℕ → Message
  build_failed host_only_failed : Message → Message
  read_failed : List ℕ → Message → Message
  bad_range_start bad_range_end bad_cpu : IntError → Message
  -- src/server.rs
  key_not_found key_expired unknown_error missing_location missing_value not_implemented : Message
  transfer_failed : Message → Message
  -- src/client.rs
  not_connected not_registered : Message
  request_not_found value_too_large : ℕ → Message
  get_failed put_failed : Message → Message
  -- a `Status` that became an error by `?`
  rpc_failed : Code → Message → Message
  -- src/bin/bench.rs: a `JoinError`
  task_panicked : Message
  -- `ParseIntError`
  parse_int : IntError → Message
  -- a text that comes from a library
  external : ℕ → Message

pub record Status : Type 0 where
  pub code : Code
  pub message : Message

abbrev pub status : Code → Message → Status
status c m = record { code = c; message = m }
