-- ===== src/Examples/Setup.antt =====
-- A map that is a function, and a process with a server and a client.
use mathlib.Core.Option
use kv_rdma_poc.Shared.{
  ℕ, ◌≡◌, ◌≢◌, refl, inl, inr, Bool, true, false, ◌&&◌, ◌==◌, if◌then◌else◌, Bool-cases, arith,
  ℕ_discrete, [], ◌∷◌, Option, none, some,
}
use kv_rdma_poc.Protocol.{CacheEntry}
use kv_rdma_poc.Memory.Bytes.{Memory}
use kv_rdma_poc.Transport.{TransportConfig}
use kv_rdma_poc.Server.EntryMap.{DashMap, Key}
use kv_rdma_poc.Server.{ServerConfig}

abbrev pub Entries : Type 0
Entries = Key → Option CacheEntry

abbrev pub same : Key → Key → Bool
same [] [] = true
same (a ∷ k) (b ∷ j) = (a == b) && same k j
same [] (b ∷ j) = false
same (a ∷ k) [] = false

same_self : (k : Key) → same k k ≡ true
same_self [] = refl
same_self (a ∷ k) = ground (arith, same_self k)

same-true : (k j : Key) → same k j ≡ true → k ≡ j
same-true [] [] e = refl
same-true (a ∷ k) (b ∷ j) e = elim (ℕ_discrete a b) [
  | yes h ↦ cc (h, same-true k j rest)
  | no h ↦ ground arith
]
  where
    rest : same k j ≡ true
    rest = ground arith
same-true [] (b ∷ j) e = absurd (cc e)
same-true (a ∷ k) [] e = absurd (cc e)

abbrev pub assign : Key → Option CacheEntry → Entries → Entries
assign k o m j = if same k j then o else m j

pub assign_self : (k : Key) (o : Option CacheEntry) (m : Entries) → assign k o m k ≡ o
assign_self k o m = rw (same_self k) refl

pub assign_ne : (k j : Key) (o : Option CacheEntry) (m : Entries) → k ≢ j → assign k o m j ≡ m j
assign_ne k j o m ne = elim (Bool-cases (same k j)) [
  | inl e ↦ absurd (ne (same-true k j e))
  | inr e ↦ rw e refl
]

abbrev pub entries : DashMap
entries = record {
  Map = Entries;
  empty = λ _. none;
  get = λ k m. m k;
  insert = λ k e m. (m k, assign k (some e) m);
  remove = λ k m. (Option.map (λ e. (k, e)) (m k), assign k none m);
  get-empty = λ k. refl;
  insert_old = λ k e m. refl;
  get-insert_self = λ k e m. assign_self k (some e) m;
  get-insert_ne = λ k j e m ne. assign_ne k j (some e) m ne;
  remove_old = λ k m. refl;
  get-remove_self = λ k m. assign_self k none m;
  get-remove_ne = λ k j m ne. assign_ne k j none m ne;
}

abbrev pub mock_config : TransportConfig
mock_config = record { node_id = 0; num_domains = 1; use_mock = true }

abbrev pub server_config : ServerConfig
server_config = record {
  node_id = 1;
  listen_addr = [];
  memory_pool_size = 16384;
  transport = mock_config;
}

abbrev pub zeroed : Memory
zeroed _ = 0

abbrev pub server_address : ℕ
server_address = 1000000
