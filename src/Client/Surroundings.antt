-- ===== src/Client/Surroundings.antt =====
-- What the binaries that make a client are given.
use kv_rdma_poc.Shared.{ℕ, List, Option, Outcome}
use kv_rdma_poc.Message.{Message}
use kv_rdma_poc.Transport.{TransportConfig, RdmaTransportTrait}
use kv_rdma_poc.Client.{KvCacheServiceClient}

-- The surroundings of a process: what tonic connects to, the build's fabric transport, and the address
-- of the buffer that a client is given.
pub record Surroundings (R : Type 0) : Type 0 where
  pub connect_channel : List ℕ → Outcome Message (KvCacheServiceClient R)
  pub fabric : Option (TransportConfig → Outcome Message RdmaTransportTrait)
  pub buffer : (client_id : ℕ) → ℕ
