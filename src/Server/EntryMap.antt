-- ===== src/Server/EntryMap.antt =====
-- `DashMap<Vec<u8>, CacheEntry>` of the dashmap crate, which src/server.rs keeps its entries in: an
-- interface with the documented behaviour of the calls that the server makes.
use mathlib.Core.Option
use kv_rdma_poc.Shared.{ℕ, ◌≡◌, ◌≢◌, List, Option, none, some}
use kv_rdma_poc.Protocol.{CacheEntry}

abbrev pub Key : Type 0
Key = List ℕ

-- `insert` returns the entry that it replaces, and `remove` the key and the entry that it took out.
pub record DashMap : Type 1 where
  pub Map : Type 0
  pub empty : Map
  pub get : Key → Map → Option CacheEntry
  pub insert : Key → CacheEntry → Map → Option CacheEntry × Map
  pub remove : Key → Map → Option (Key × CacheEntry) × Map
  pub get-empty : (k : Key) → get k empty ≡ none
  pub insert_old : (k : Key) (e : CacheEntry) (m : Map) → (insert k e m).0 ≡ get k m
  pub get-insert_self : (k : Key) (e : CacheEntry) (m : Map) → get k (insert k e m).1 ≡ some e
  pub get-insert_ne :
      (k j : Key) (e : CacheEntry) (m : Map) → k ≢ j → get j (insert k e m).1 ≡ get j m
  pub remove_old : (k : Key) (m : Map) → (remove k m).0 ≡ Option.map (λ e. (k, e)) (get k m)
  pub get-remove_self : (k : Key) (m : Map) → get k (remove k m).1 ≡ none
  pub get-remove_ne : (k j : Key) (m : Map) → k ≢ j → get j (remove k m).1 ≡ get j m
