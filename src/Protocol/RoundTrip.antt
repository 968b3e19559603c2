-- ===== src/Protocol/RoundTrip.antt =====
-- What the conversions between the types of src/protocol.rs and the messages keep, and when an
-- entry expires.
use kv_rdma_poc.Shared.{
  ℕ, ◌+◌, ◌*◌, ◌^◌, ◌≤◌, ◌≡◌, ◌↔◌, ◌≢◌, refl, ap, List, [], ◌∷◌, Option, none, some, map, arith,
  true,
}
use kv_rdma_poc.Protocol.Pb
use kv_rdma_poc.Protocol.{
  MemoryRegionDescriptor, ValueLocation, CacheEntry, is_expired, descriptor_from_pb,
  descriptor_to_pb, descriptor_or_null, location_from_pb, location_to_pb,
}

module _ {A B : Type 0} (f : A → B) (g : B → A) where
  pub map_inverse : ((a : A) → g (f a) ≡ a) → (l : List A) → map g (map f l) ≡ l
  map_inverse h [] = refl
  map_inverse h (a ∷ l) = cc (h a, map_inverse h l)

pub descriptor-from_to : (d : MemoryRegionDescriptor) → descriptor_from_pb (descriptor_to_pb d) ≡ d
unfolding descriptor_from_pb descriptor_to_pb
descriptor-from_to d =
    ap (λ l. record { ptr = d.ptr; addr_rkey_list = l })
      (map_inverse _ _ (λ a. refl) d.addr_rkey_list)

descriptor-to_from : (d : Pb.MemoryRegionDescriptor) → descriptor_to_pb (descriptor_from_pb d) ≡ d
unfolding descriptor_from_pb descriptor_to_pb
descriptor-to_from d =
    ap (λ l. record { ptr = d.ptr; addr_rkey_list = l })
      (map_inverse _ _ (λ a. refl) d.addr_rkey_list)

-- What a message without a descriptor is read as.
abbrev pub with_descriptor : Option Pb.MemoryRegionDescriptor → Pb.MemoryRegionDescriptor
with_descriptor none = record { ptr = 0; addr_rkey_list = [] }
with_descriptor (some d) = d

to_pb-descriptor_or_null :
    (o : Option Pb.MemoryRegionDescriptor)
    → descriptor_to_pb (descriptor_or_null o) ≡ with_descriptor o
unfolding descriptor_or_null descriptor_to_pb
to_pb-descriptor_or_null none = refl
to_pb-descriptor_or_null (some d) = descriptor-to_from d

-- A location survives the way over the wire; back and forth from a message, an absent descriptor
-- comes back as the null one, and all else as it was.
pub location_round_trip :
    (l : ValueLocation) (p : Pb.ValueLocation)
    → (location_from_pb (location_to_pb l) ≡ l)
      × (location_to_pb (location_from_pb p)
          ≡ record p { mr_descriptor = some (with_descriptor p.mr_descriptor) })
unfolding location_from_pb location_to_pb
location_round_trip l p = (
  ap (λ (d : MemoryRegionDescriptor). record l { mr_descriptor = d })
      (descriptor-from_to l.mr_descriptor),
  ap (λ (d : Pb.MemoryRegionDescriptor). record p { mr_descriptor = some d })
      (to_pb-descriptor_or_null p.mr_descriptor),
)

-- An entry has expired exactly when it has a time to live and that many whole seconds have passed
-- since its creation.
pub is_expired_iff :
    (e : CacheEntry) (now : ℕ)
    → (is_expired e now ≡ true)
      ↔ ((e.ttl_seconds ≢ 0) × (e.created_at + e.ttl_seconds * 10 ^ 9 ≤ now))
unfolding is_expired
is_expired_iff e now = (λ h. ground arith, λ h. ground arith)
