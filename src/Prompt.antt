-- ===== src/Prompt.antt =====
-- src/bin/client.rs: its commands, its prompt and its benchmark, with what they print. The clock of the
-- benchmark is left out, and to print does not fail.
pub mod RoundTrip
pub mod Errors
pub mod Stops
use kv_rdma_poc.Shared.{
  ℕ, ◌/◌, ◌≡◌, Bool, true, false, ◌||◌, List, [], ◌∷◌, ◌++◌, Option, none, some, if◌then◌else◌,
  Outcome, ok, err, panic, Exec, pure, fail, abort, ◌>>=◌, ◌>>◌, for_each, map,
}
use Prim.Native.String.{String}
use kv_rdma_poc.Shared.Word.{mul64}
use kv_rdma_poc.Shared.Text.{codes, decimal, range_from}
use kv_rdma_poc.Shared.Parse.{trim, split_whitespace, same_text}
use kv_rdma_poc.Message.{Message}
use kv_rdma_poc.Memory.Bytes.{Memory}
use kv_rdma_poc.Memory.Pool.{PoolStats}
use kv_rdma_poc.Client
use kv_rdma_poc.Client.{KvCacheClient, Process, memory_stats}
use kv_rdma_poc.Client.Surroundings.{Surroundings}

pub data Commands : Type 0 where
  get delete : (key : List ℕ) → Commands
  put : (key value : List ℕ) (ttl : ℕ) → Commands
  repl : Commands
  bench : (ops value_size : ℕ) → Commands

pub record Args : Type 0 where
  pub client_id : ℕ
  pub server_addr : List ℕ
  pub buffer_mb : ℕ
  pub mock : Bool
  pub command : Commands

-- The standard library's encoding of a text, whose bytes decode to the text.
pub record Utf8 : Type 0 where
  pub as_bytes : List ℕ → List ℕ
  pub from_utf8 : List ℕ → Option (List ℕ)
  pub from_utf8-as_bytes : (s : List ℕ) → from_utf8 (as_bytes s) ≡ some s

-- What is printed: a line of text, a list of bytes, an error, the mark of the prompt, the numbers of the statistics.
pub data Output : Type 0 where
  text : List ℕ → Output
  debug : List ℕ → Output
  error : Message → Output
  mark : Output
  memory_line : (total used available : ℕ) → Output

-- A process with what it has printed so far.
pub record Terminal (R : Type 0) : Type 0 where
  pub process : Process R
  pub printed : List Output

abbrev pub is_word : String → List ℕ → Bool
is_word s w = same_text w (codes s)

abbrev op_key : ℕ → List ℕ
op_key i = codes "bench_key_" ++ decimal i

abbrev client_config : Args → Client.ClientConfig
client_config args = record {
  client_id = args.client_id;
  server_addr = args.server_addr;
  receive_buffer_size = mul64 (mul64 args.buffer_mb 1024) 1024;
  transport = record { node_id = args.client_id; num_domains = 1; use_mock = args.mock };
}

module _ {R : Type 0} where
  abbrev pub say : {E : Type 0} → Output → Exec (Terminal R) E (Unit {0})
  say o s = (ok tt, record s { printed = s.printed ++ o ∷ [] })

  -- A call of the client.
  abbrev pub on_process : {E A : Type 0} → Exec (Process R) E A → Exec (Terminal R) E A
  on_process m s = let (r, p) = m s.process in (r, record s { process = p })

  -- `match` on a result: a value goes on, and an error is printed.
  abbrev pub reported :
      {E A : Type 0}
      → (A → Exec (Terminal R) E (Unit {0}))
      → Outcome Message A × Terminal R
      → Outcome E (Unit {0}) × Terminal R
  reported k (ok a, s) = k a s
  reported k (err e, s) = say (error e) s
  reported k (panic, s) = (panic, s)

  module _ (U : Utf8) where
    abbrev pub show_value : {E : Type 0} → List ℕ → Exec (Terminal R) E (Unit {0})
    show_value value = elim (U.from_utf8 value) [ some s ↦ say (text s) | none ↦ say (debug value) ]

    unfoldable pub cmd_get : List ℕ → Exec (Terminal R) Message (Unit {0})
    cmd_get key s = reported show_value (on_process (Client.get (U.as_bytes key)) s)

    unfoldable pub cmd_put : List ℕ → List ℕ → ℕ → Exec (Terminal R) Message (Unit {0})
    cmd_put key value ttl s =
        reported (λ _. say (text (codes "OK")))
          (on_process (Client.put (U.as_bytes key) (U.as_bytes value) ttl) s)

    unfoldable pub cmd_delete : List ℕ → Exec (Terminal R) Message (Unit {0})
    cmd_delete key s =
        reported
          (λ (existed : Bool).
            say (text (if existed then codes "Deleted" else codes "Key not found")))
          (on_process (Client.delete (U.as_bytes key)) s)

    unfoldable pub show_stats : Exec (Terminal R) Message (Unit {0})
    show_stats s =
        let stats = memory_stats s.process in
        say
          (memory_line (stats.total / 1024 / 1024) (stats.used / 1024 / 1024)
            (stats.available / 1024 / 1024))
          s

    -- A command after which the prompt goes on.
    abbrev go_on : Exec (Terminal R) Message (Unit {0}) → Exec (Terminal R) Message Bool
    go_on m = m >> pure true

    abbrev get_line : List (List ℕ) → Exec (Terminal R) Message (Unit {0})
    get_line [] = say (text (codes "Usage: get <key>"))
    get_line (key ∷ parts) = cmd_get key

    abbrev put_line : List (List ℕ) → Exec (Terminal R) Message (Unit {0})
    put_line [] = say (text (codes "Usage: put <key> <value>"))
    put_line (key ∷ []) = say (text (codes "Usage: put <key> <value>"))
    put_line (key ∷ value ∷ parts) = cmd_put key value 0

    abbrev delete_line : List (List ℕ) → Exec (Terminal R) Message (Unit {0})
    delete_line [] = say (text (codes "Usage: delete <key>"))
    delete_line (key ∷ parts) = cmd_delete key

    -- Whether the prompt goes on after the words of a line.
    unfoldable pub run_parts : List (List ℕ) → Exec (Terminal R) Message Bool
    unfolding cmd_get cmd_put cmd_delete show_stats
    run_parts [] = pure true
    run_parts (w ∷ parts) =
        if is_word "get" w
        then go_on (get_line parts)
        else if is_word "put" w
        then go_on (put_line parts)
        else if is_word "delete" w || is_word "del" w
        then go_on (delete_line parts)
        else if is_word "stats" w
        then go_on show_stats
        else if is_word "quit" w || is_word "exit" w || is_word "q" w
        then say (text (codes "Bye!")) >> pure false
        else go_on (say (text (codes "Unknown command: " ++ w)))

    -- A line that is read with no bytes is the end of the input.
    unfoldable pub run_line : List ℕ → Exec (Terminal R) Message Bool
    unfolding run_parts split_whitespace trim
    run_line [] = pure false
    run_line (c ∷ line) = run_parts (split_whitespace (trim (c ∷ line)))

    -- The loop, on what the calls of `read_line` give; after them stands the end of the input.
    unfoldable pub prompt : List (Outcome Message (List ℕ)) → Exec (Terminal R) Message (Unit {0})
    unfolding run_line
    prompt [] = say mark
    prompt (input ∷ inputs) = do
      say mark
      line ← (λ s. (input, s))
      more ← run_line line
      let rest = prompt inputs
      if more then rest else pure tt

    unfoldable pub cmd_repl : List (Outcome Message (List ℕ)) → Exec (Terminal R) Message (Unit {0})
    unfolding prompt
    cmd_repl inputs =
        say (
          text (codes "KV Cache REPL - Commands: get <key>, put <key> <value>, delete <key>, quit"))
        >> prompt inputs

    -- The figures of the clock are left out. The first call that fails ends the benchmark.
    unfoldable pub cmd_bench : ℕ → ℕ → Exec (Terminal R) Message (Unit {0})
    unfolding range_from
    cmd_bench ops value_size = do
      for_each
          (λ i. on_process (Client.put (op_key i) (map (λ _. b'x') (range_from 0 value_size)) 0))
          (range_from 0 ops)
      for_each (λ i. on_process (Client.get (op_key i)) >> pure tt) (range_from 0 ops)
      for_each (λ i. on_process (Client.delete (op_key i)) >> pure tt) (range_from 0 ops)

    unfoldable pub run_command :
        List (Outcome Message (List ℕ)) → Commands → Exec (Terminal R) Message (Unit {0})
    unfolding cmd_get cmd_put cmd_delete cmd_repl cmd_bench
    run_command inputs (get key) = cmd_get key
    run_command inputs (put key value ttl) = cmd_put key value ttl
    run_command inputs (delete key) = cmd_delete key
    run_command inputs repl = cmd_repl inputs
    run_command inputs (bench ops value_size) = cmd_bench ops value_size

  abbrev started : Outcome Message (Unit {0}) × Process R → Outcome Message (Process R)
  started (ok _, p) = ok p
  started (err e, p) = err e
  started (panic, p) = panic

  -- The process of a client that has been made and connected.
  unfoldable pub run_client : Surroundings R → Args → R → Memory → Outcome Message (Process R)
  run_client s args remote memory =
      elim (Client.new s.fabric (client_config args) (s.buffer args.client_id)) [
        | err e ↦ err e
        | panic ↦ panic
        | ok c ↦ started (
            Client.connect s.connect_channel
              (record { client = c; remote = remote; memory = memory }))
      ]

  -- What is printed, and how the program ends.
  unfoldable pub run_main :
      Utf8
      → Surroundings R
      → Args
      → List (Outcome Message (List ℕ))
      → R
      → Memory
      → Outcome Message (Unit {0}) × List Output
  unfolding run_client run_command
  run_main U s args inputs remote memory = elim (run_client s args remote memory) [
    | err e ↦ (err e, [])
    | panic ↦ (panic, [])
    | ok p ↦
        let (r, t) = run_command U inputs args.command (record { process = p; printed = [] }) in
        (r, t.printed)
  ]
