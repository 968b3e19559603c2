-- ===== src/Bench.antt =====
-- src/bin/bench.rs: the arguments, the sizes, the keys, and the clients that the phases share.
pub mod Share
pub mod Index
pub mod Size
pub mod Latency
pub mod Phases
use kv_rdma_poc.Shared.{
  ℕ, zero, suc, ◌+◌, ◌-◌, ◌%◌, ◌^◌, Bool, List, [], ◌∷◌, ◌++◌, Option, none, some, map, length,
  Outcome, ok, err, panic, Exec, pure, abort, ◌/◌, ◌>>=◌, ◌>>◌,
}
use kv_rdma_poc.Shared.Word.{word, mul64}
use kv_rdma_poc.Shared.Text.{codes, decimal, range_from, pad_zeros}
use kv_rdma_poc.Message.{Message}
use kv_rdma_poc.Memory.Bytes.{Memory}
use kv_rdma_poc.Transport.{TransportConfig, RdmaTransportTrait}
use kv_rdma_poc.Client
use kv_rdma_poc.Client.Surroundings.{Surroundings}
use kv_rdma_poc.Client.{KvCacheClient, KvCacheServiceClient, Process}

pub record Args : Type 0 where
  pub server_addr : List ℕ
  pub num_keys : ℕ
  pub value_size : List ℕ
  pub num_workers : ℕ
  pub num_clients : ℕ
  pub buffer_mb : ℕ
  pub mock : Bool
  pub base_client_id : ℕ
  pub ttl : ℕ
  pub warmup : ℕ
  pub repeat_reads : ℕ

-- The clients of the pool, what they talk to, and the memory of the process.
pub record World (R : Type 0) : Type 0 where
  pub clients : List (KvCacheClient R)
  pub remote : R
  pub memory : Memory

abbrev pub nth : {A : Type 0} → List A → ℕ → Option A
nth [] i = none
nth (x ∷ xs) zero = some x
nth (x ∷ xs) (suc i) = nth xs i

abbrev pub set_nth : {A : Type 0} → ℕ → A → List A → List A
set_nth i y [] = []
set_nth zero y (x ∷ xs) = y ∷ xs
set_nth (suc i) y (x ∷ xs) = x ∷ set_nth i y xs

-- `a % b`, which panics where `b` is zero.
abbrev pub rem : {S E : Type 0} → ℕ → ℕ → Exec S E ℕ
rem a zero = abort
rem a (suc b) = pure (a % suc b)

abbrev pub div : {S E : Type 0} → ℕ → ℕ → Exec S E ℕ
div a zero = abort
div a (suc b) = pure (a / suc b)

-- `keys[i]`
abbrev pub index : {S E A : Type 0} → List A → ℕ → Exec S E A
index xs i = elim (nth xs i) [ none ↦ abort | some x ↦ pure x ]

abbrev pub client_config : Args → ℕ → Client.ClientConfig
client_config args client_id = record {
  client_id = client_id;
  server_addr = args.server_addr;
  receive_buffer_size = mul64 (mul64 args.buffer_mb 1024) 1024;
  transport = record { node_id = client_id; num_domains = 1; use_mock = args.mock };
}

module _ {R : Type 0} where
  -- A call of the client at `i`; an index out of range panics.
  abbrev pub on_client : {A : Type 0} → ℕ → Exec (Process R) Message A → Exec (World R) Message A
  on_client i m w = elim (nth w.clients i) [
    | none ↦ (panic, w)
    | some c ↦
        let (r, p) = m (record { client = c; remote = w.remote; memory = w.memory }) in
        (r, record { clients = set_nth i p.client w.clients; remote = p.remote; memory = p.memory })
  ]

  -- A client that does not connect is dropped.
  abbrev connected :
      World R → Outcome Message (Unit {0}) × Process R → Outcome Message (KvCacheClient R) × World R
  connected w (ok _, p) = (ok p.client, record w { remote = p.remote; memory = p.memory })
  connected w (err e, p) = (err e, record w { remote = p.remote; memory = p.memory })
  connected w (panic, p) = (panic, record w { remote = p.remote; memory = p.memory })

  unfoldable pub create_client :
      Surroundings R → Args → ℕ → Exec (World R) Message (KvCacheClient R)
  create_client s args client_id w =
      elim (Client.new s.fabric (client_config args client_id) (s.buffer client_id)) [
        | err e ↦ (err e, w)
        | panic ↦ (panic, w)
        | ok c ↦ connected w (
            Client.connect s.connect_channel
              (record { client = c; remote = w.remote; memory = w.memory }))
      ]

-- `format!("bench_key_{:08}", i)`
unfoldable pub bench_key : ℕ → List ℕ
unfolding pad_zeros
bench_key i = codes "bench_key_" ++ pad_zeros 8 (decimal i)

unfoldable pub bench_keys : ℕ → List (List ℕ)
unfolding bench_key range_from
bench_keys num_keys = map bench_key (range_from 0 num_keys)
