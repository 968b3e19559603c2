-- ===== src/Protocol.antt =====
-- src/protocol.rs, with the messages of proto/kv_cache.proto that its conversions read and write.
-- `SmallVec` and `Vec` are lists, and addresses, keys and lengths are words.
pub mod Pb
pub mod RoundTrip
use kv_rdma_poc.Shared.{
  ℕ, ◌-◌, ◌*◌, ◌/◌, ◌^◌, Bool, false, List, [], ◌∷◌, Option, none, some, map, leb, ◌==◌, length,
  if◌then◌else◌,
}
use Pb

pub record DomainAddress : Type 0 where
  pub bytes : List ℕ

pub record MemoryRegionRemoteKey : Type 0 where
  pub key : ℕ

pub record MemoryRegionDescriptor : Type 0 where
  pub ptr : ℕ
  pub addr_rkey_list : List (DomainAddress × MemoryRegionRemoteKey)

unfoldable pub new_descriptor :
    ℕ → List (DomainAddress × MemoryRegionRemoteKey) → MemoryRegionDescriptor
new_descriptor ptr addr_rkey_list = record { ptr = ptr; addr_rkey_list = addr_rkey_list }

first_address : List (DomainAddress × MemoryRegionRemoteKey) → Option DomainAddress
first_address [] = none
first_address ((addr, rkey) ∷ rest) = some addr

unfoldable pub first_domain : MemoryRegionDescriptor → Option DomainAddress
unfolding first_address
first_domain d = first_address d.addr_rkey_list

pub record ValueLocation : Type 0 where
  pub node_id : ℕ
  pub mr_descriptor : MemoryRegionDescriptor
  pub offset : ℕ
  pub length : ℕ

pub record MemoryRegionHandle : Type 0 where
  pub ptr : ℕ
  pub len : ℕ

-- `created_at` is an `Instant`, here a number of nanoseconds.
pub record CacheEntry : Type 0 where
  pub value : List ℕ
  pub offset : ℕ
  pub ttl_seconds : ℕ
  pub created_at : ℕ

-- `now` is what `Instant::now()` returns.
unfoldable pub new_entry : List ℕ → ℕ → ℕ → ℕ → CacheEntry
new_entry value offset ttl_seconds now = record {
  value = value;
  offset = offset;
  ttl_seconds = ttl_seconds;
  created_at = now;
}

-- `elapsed()` saturates at zero.
unfoldable pub is_expired : CacheEntry → ℕ → Bool
is_expired entry now =
    if entry.ttl_seconds == 0
    then false
    else leb entry.ttl_seconds ((now - entry.created_at) / 10 ^ 9)

unfoldable pub len : CacheEntry → ℕ
len entry = length entry.value

unfoldable pub is_empty : CacheEntry → Bool
is_empty entry = length entry.value == 0

-- `From<&pb::MemoryRegionDescriptor>`
unfoldable pub descriptor_from_pb : Pb.MemoryRegionDescriptor → MemoryRegionDescriptor
descriptor_from_pb pb = record {
  ptr = pb.ptr;
  addr_rkey_list =
      map
        (λ (item : Pb.DomainAddressKey).
          (record { bytes = item.domain_address }, record { key = item.rkey }))
        pb.addr_rkey_list;
}

unfoldable pub descriptor_to_pb : MemoryRegionDescriptor → Pb.MemoryRegionDescriptor
descriptor_to_pb desc = record {
  ptr = desc.ptr;
  addr_rkey_list =
      map
        (λ (item : DomainAddress × MemoryRegionRemoteKey). record {
          domain_address = item.0.bytes;
          rkey = item.1.key;
        })
        desc.addr_rkey_list;
}

-- `as_ref().map(..).unwrap_or_else(..)`
unfoldable pub descriptor_or_null : Option Pb.MemoryRegionDescriptor → MemoryRegionDescriptor
unfolding descriptor_from_pb new_descriptor
descriptor_or_null none = new_descriptor 0 []
descriptor_or_null (some d) = descriptor_from_pb d

unfoldable pub location_from_pb : Pb.ValueLocation → ValueLocation
unfolding descriptor_or_null
location_from_pb pb = record {
  node_id = pb.node_id;
  mr_descriptor = descriptor_or_null pb.mr_descriptor;
  offset = pb.offset;
  length = pb.length;
}

unfoldable pub location_to_pb : ValueLocation → Pb.ValueLocation
unfolding descriptor_to_pb
location_to_pb loc = record {
  node_id = loc.node_id;
  mr_descriptor = some (descriptor_to_pb loc.mr_descriptor);
  offset = loc.offset;
  length = loc.length;
}
