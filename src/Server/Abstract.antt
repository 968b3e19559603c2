-- ===== src/Server/Abstract.antt =====
-- The cache as its clients see it: a map from keys to values with an expiry. Blocks, free lists and
-- the bytes of the pool are forgotten.
use kv_rdma_poc.Shared.{
  ℕ, zero, suc, ◌+◌, ◌*◌, ◌^◌, Bool, true, false, not, ◌&&◌, List, [], ◌∷◌, Option, none, some, leb,
  ◌==◌, if◌then◌else◌,
}
use kv_rdma_poc.Message.{Message, pool_exhausted, key_not_found, key_expired}
use kv_rdma_poc.Server.EntryMap.{Key}
use kv_rdma_poc.Server.Stored.{Key-discrete}
use kv_rdma_poc.Server.History.{Call, puts, gets, deletes}

pub record Item : Type 0 where
  pub value : List ℕ
  pub ttl_seconds : ℕ
  pub created_at : ℕ

abbrev pub Store : Type 0
Store = Key → Option Item

abbrev pub update : Key → Option Item → Store → Store
update key o m k = elim (Key-discrete key k) [ yes _ ↦ o | no _ ↦ m k ]

-- The item is gone once its time to live, if it has one, has passed.
abbrev pub expired : Item → ℕ → Bool
expired i now = not (i.ttl_seconds == 0) && leb (i.created_at + i.ttl_seconds * 10 ^ 9) now

-- What a caller learns. A get that succeeds shows the bytes at the target.
pub data Answer : Type 0 where
  stored : Answer
  sent : List ℕ → Answer
  deleted : Bool → Answer
  failed : Message → Answer
  broken : Answer

abbrev pub has : Option Item → Bool
has none = false
has (some i) = true

-- A get: an item that it finds expired leaves the map.
abbrev pub look_up : Key → ℕ → Store → Option Item → Answer × Store
look_up key now m none = (failed key_not_found, m)
look_up key now m (some i) =
    if expired i now then (failed key_expired, update key none m) else (sent i.value, m)

-- What the map answers, and the map afterwards. Whether there is room for a put is left open.
abbrev pub respond : Bool → Call → Store → Answer × Store
respond true (puts key value ttl_seconds now) m = (
  stored,
  update key (some (record { value = value; ttl_seconds = ttl_seconds; created_at = now })) m,
)
respond false (puts key value ttl_seconds now) m = (failed pool_exhausted, m)
respond room (gets key loc now) m = look_up key now m (m key)
respond room (deletes key) m = (deleted (has (m key)), update key none m)

-- The same calls on the map, where the Booleans say for each call whether there is room.
unfoldable pub replay : List Call → (ℕ → Bool) → Store → List Answer × Store
replay [] room m = ([], m)
replay (c ∷ cs) room m =
    let (a, m') = respond (room 0) c m in
    let (rest, m'') = replay cs (λ i. room (suc i)) m' in (a ∷ rest, m'')

abbrev pub first : Bool → (ℕ → Bool) → ℕ → Bool
first b room zero = b
first b room (suc i) = room i
