-- ===== src/Protocol/Pb.antt =====
-- The messages of proto/kv_cache.proto.
use kv_rdma_poc.Shared.{ℕ, Bool, List, Option}
use kv_rdma_poc.Message.{Message}

pub record DomainAddressKey : Type 0 where
  pub domain_address : List ℕ
  pub rkey : ℕ

pub record MemoryRegionDescriptor : Type 0 where
  pub ptr : ℕ
  pub addr_rkey_list : List DomainAddressKey

-- A field whose type is a message may be absent.
pub record ValueLocation : Type 0 where
  pub node_id : ℕ
  pub mr_descriptor : Option MemoryRegionDescriptor
  pub offset : ℕ
  pub length : ℕ

pub record GetRequest : Type 0 where
  pub key : List ℕ
  pub response_location : Option ValueLocation
  pub request_id : ℕ

pub record GetResponse : Type 0 where
  pub success : Bool
  pub value_length : ℕ
  pub error_message : Message
  pub request_id : ℕ

-- `oneof value_source`
pub data ValueSource : Type 0 where
  inline_value : List ℕ → ValueSource
  rdma_location : ValueLocation → ValueSource

pub record PutRequest : Type 0 where
  pub key : List ℕ
  pub value_source : Option ValueSource
  pub ttl_seconds : ℕ

pub record PutResponse : Type 0 where
  pub success : Bool
  pub error_message : Message

pub record DeleteRequest : Type 0 where
  pub key : List ℕ

pub record DeleteResponse : Type 0 where
  pub success : Bool
  pub key_existed : Bool

pub record RegisterClientRequest : Type 0 where
  pub client_id : ℕ
  pub domain_addresses : List (List ℕ)
  pub receive_buffer_size : ℕ

pub record RegisterClientResponse : Type 0 where
  pub success : Bool
  pub server_id : ℕ
  pub server_domain_addresses : List (List ℕ)

pub record HeartbeatRequest : Type 0 where
  pub client_id : ℕ

pub record HeartbeatResponse : Type 0 where
  pub alive : Bool
