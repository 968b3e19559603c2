-- ===== src/Examples/TallyRuns.antt =====
-- The theorem on the read phase at a concrete input: clients that are not connected.
use kv_rdma_poc.Shared.{ℕ, ◌+◌, ◌≡◌, refl, List, [], ◌∷◌, none, ok, err, All, arith}
use kv_rdma_poc.Message.{not_connected}
use kv_rdma_poc.Client.{KvCacheClient, Process, get}
use kv_rdma_poc.Bench.{World}
use kv_rdma_poc.Bench.Index.{nth-some, nth-All}
use kv_rdma_poc.Bench.Phases.{read_phase}
use kv_rdma_poc.Bench.Phases.Local.{on_client_same}
use kv_rdma_poc.Bench.Phases.Tally.{IsSafe, read_phase_tally}
use kv_rdma_poc.Examples.Setup.{zeroed}
use kv_rdma_poc.Examples.ClientRuns.{client_of, answering, down}
use kv_rdma_poc.Examples.PhaseRuns.{args, two_keys, order, order-Shuffle}

abbrev IsOffline : KvCacheClient (Unit {0}) → Type 0
IsOffline c = c.grpc_client ≡ none

abbrev AreOffline : World (Unit {0}) → Type 0
AreOffline w = All IsOffline w.clients

get_offline :
    (key : List ℕ) (p : Process (Unit {0}))
    → IsOffline p.client
    → get key p ≡ (err not_connected, p)
unfolding get
get_offline key p e = rw (e, get) refl

AreOffline-IsSafe : IsSafe AreOffline
AreOffline-IsSafe i key w within offline =
    let (c, e) = nth-some w.clients i within in
    let run = on_client_same i (get key) w c (err not_connected) w.remote w.memory e (
      get_offline key (record { client = c; remote = w.remote; memory = w.memory })
        (nth-All IsOffline w.clients i e offline)) in
    (rw run (λ q. cc), rw run offline)

abbrev offline : KvCacheClient (Unit {0})
offline = record (client_of (answering down)) { grpc_client = none }

abbrev world : World (Unit {0})
world = record { clients = offline ∷ offline ∷ []; remote = tt; memory = zeroed }

read_phase_tally_example :
    (ops errs : ℕ) × (w' : World (Unit {0})) × (read_phase args two_keys order world
      ≡ (ok (ops, errs), w'))
    × (ops + errs ≡ 2)
read_phase_tally_example =
    read_phase_tally AreOffline args two_keys order world AreOffline-IsSafe refl (omega arith)
      (omega arith) order-Shuffle (omega arith) (refl, (refl, tt))
