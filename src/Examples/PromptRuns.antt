-- ===== src/Examples/PromptRuns.antt =====
-- The theorems on the binaries of the client and of the server at concrete inputs.
use kv_rdma_poc.Shared.{
  ℕ, zero, suc, ◌+◌, ◌≡◌, ◌≢◌, refl, ap, ◌∙◌, inl, inr, true, false, List, [], ◌∷◌, some, none, map,
  length, length-map, ok, err, All, arith,
}
use kv_rdma_poc.Shared.Text.{codes, range_from, length-range_from}
use kv_rdma_poc.Shared.Parse.{is_white, split_whitespace, trim}
use kv_rdma_poc.Shared.Parse.Words.{IsWord, print_words}
use kv_rdma_poc.Message.{pool_exhausted}
use kv_rdma_poc.Protocol.{ValueLocation, is_expired, new_entry}
use kv_rdma_poc.Memory.Align.{Multiple, align_up}
use kv_rdma_poc.Memory.Allocator
use kv_rdma_poc.Memory.Allocator.{first_fit}
use kv_rdma_poc.Memory.Pool
use kv_rdma_poc.Server.EntryMap.{Key}
use kv_rdma_poc.Server.{KvCacheServer, put_value, store_entry, get_and_transfer}
use kv_rdma_poc.Server.Get.Overrun.{get_overruns}
use kv_rdma_poc.Server.Room.{HasRoom}
use kv_rdma_poc.Server.Serving.{IsServing}
use kv_rdma_poc.Server.Startup
use kv_rdma_poc.Server.Startup.{Machine, run_with_config, run_with_config_lem}
use kv_rdma_poc.Client.{Process, get_pending}
use kv_rdma_poc.Prompt.{Utf8, text, mark, Terminal, prompt}
use kv_rdma_poc.Prompt.RoundTrip.{prompt_put_get}
use kv_rdma_poc.Prompt.Stops.{IsLast, prompt_stops}
use kv_rdma_poc.Prompt.Errors.{prompt-NeverFails}
use kv_rdma_poc.Examples.Setup.{entries, zeroed}
use kv_rdma_poc.Examples.ServerRuns.{
  booted, key_a, entry_a, stored, stored-IsConsistent, booted-Delivers, location_b,
}
use kv_rdma_poc.Examples.Histories.{booted-IsServing}
use kv_rdma_poc.Examples.ClientRuns.{pool_at, pool-IsReceiving, given, asking, down}
use kv_rdma_poc.Examples.PutRuns.{at_start}

-- ASCII
abbrev ascii : Utf8
ascii = record { as_bytes = λ s. s; from_utf8 = λ s. some s; from_utf8-as_bytes = λ s. refl }

abbrev xs : List ℕ
xs = map (λ _. b'x') (range_from 0 4096)

length-xs : length xs ≡ 4096
length-xs = length-map (λ _. b'x') (range_from 0 4096) ∙ length-range_from 0 4096

no_white : (start n : ℕ) → All (λ c. is_white c ≡ false) (map (λ _. b'x') (range_from start n))
unfolding range_from is_white
no_white start zero = tt
no_white start (suc n) = (refl, no_white (start + 1) n)

xs-IsWord : IsWord xs
xs-IsWord =
    ((λ e. absurd (omega (arith, length-xs, ap (λ (s : List ℕ). length s) e))), no_white 0 4096)

key-IsWord : IsWord key_a
unfolding is_white
key-IsWord = ((λ e. absurd (cc e)), (refl, tt))

xs_units : Multiple booted.memory_pool.allocator.alignment (length xs)
unfolding Allocator.new
xs_units = (1, length-xs)

xs_stored : (put_value entries key_a xs 0 0 booted).0 ≡ ok tt
unfolding put_value store_entry new_entry Pool.allocate Pool.allocated Pool.write Allocator.new
    Allocator.allocate Allocator.bump first_fit align_up range_from
xs_stored = refl

abbrev terminal : Terminal (KvCacheServer entries)
terminal = record { process = at_start; printed = [] }

prompt_put_get_example :
    (p : Process (KvCacheServer entries)) × (prompt ascii
        (ok (print_words (codes "put") (key_a ∷ xs ∷ []))
          ∷ ok (print_words (codes "get") (key_a ∷ []))
          ∷ [])
        terminal
      ≡ prompt ascii []
          (record { process = p; printed = mark ∷ text (codes "OK") ∷ mark ∷ text xs ∷ [] }))
unfolding get_pending
prompt_put_get_example =
    prompt_put_get entries 0 ascii key_a xs terminal [] 0 (pool_at 1048576).allocator key-IsWord
      xs-IsWord refl booted-IsServing (omega (arith, length-xs)) xs_units xs_stored pool-IsReceiving
      (inr (omega arith)) refl given

prompt-NeverFails_example :
    (prompt ascii
      (map ok (codes "get a" ∷ codes "put a" ∷ []))
      (record { process = asking down; printed = [] })).0
    ≢ err pool_exhausted
prompt-NeverFails_example =
    prompt-NeverFails ascii (codes "get a" ∷ codes "put a" ∷ [])
      (record { process = asking down; printed = [] }) pool_exhausted

-- A buffer of one byte for a value of two.
abbrev short : ValueLocation
short = record location_b { length = 1 }

get_overruns_example :
    ((get_and_transfer entries key_a short 5 stored).0 ≡ ok 2)
    × ((get_and_transfer entries key_a short 5 stored).1.memory 5017 ≡ 8)
unfolding is_expired
get_overruns_example =
    get_overruns entries key_a short 5 stored entry_a 1 stored-IsConsistent booted-Delivers
      (record { not_null = omega arith; fits = omega arith }) refl refl (omega arith) (omega arith)

abbrev machine : Machine entries
machine = record {
  SocketAddr = Unit;
  parse_addr = λ _. ok tt;
  serve = λ _ _ _. ok tt;
  fabric = none;
  buffer = 1000000;
}

abbrev args : Startup.Args
args = record {
  node_id = 0;
  listen_addr = [];
  memory_mb = 1024;
  num_domains = 1;
  mock = true;
  worker_threads = 4;
}

run_with_config_lem_example :
    (server : KvCacheServer entries) × (run_with_config entries machine args ≡ ok tt)
    × IsServing {D = entries} (record { server = server; memory = zeroed })
    × HasRoom server.memory_pool.allocator 1073741824
    × ((k : Key) → server.cache k ≡ none)
run_with_config_lem_example =
    run_with_config_lem entries machine args tt zeroed refl (omega arith) (omega arith)
      (omega arith) refl

quit-IsLast : IsLast (codes " quit now")
unfolding split_whitespace trim is_white
quit-IsLast = inr (codes "quit", codes "now" ∷ [], refl, inl refl)

prompt_stops_example :
    prompt ascii (ok (codes "get") ∷ ok (codes " quit now") ∷ ok (codes "stats") ∷ []) terminal
    ≡ prompt ascii (ok (codes "get") ∷ ok (codes " quit now") ∷ []) terminal
prompt_stops_example =
    prompt_stops ascii (ok (codes "get") ∷ []) (ok (codes "stats") ∷ []) (codes " quit now")
      terminal quit-IsLast
