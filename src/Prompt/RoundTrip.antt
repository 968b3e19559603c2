-- ===== src/Prompt/RoundTrip.antt =====
-- A `put` and a `get` at the prompt of src/bin/client.rs, with the server in the same process.
use kv_rdma_poc.Shared.{
  ℕ, ◌≤◌, ◌≡◌, refl, sym, ◌∙◌, ap, true, inl, arith, List, [], ◌∷◌, ◌++◌, some, none, length,
  Outcome, ok, All,
}
use kv_rdma_poc.Shared.Text.{codes}
use kv_rdma_poc.Shared.Parse.{is_white}
use kv_rdma_poc.Shared.Parse.Words.{
  IsWord, print_words, split_whitespace-trim, split_whitespace-print_words,
}
use kv_rdma_poc.Message.{Message}
use kv_rdma_poc.Memory.Align.{Multiple}
use kv_rdma_poc.Memory.Allocator
use kv_rdma_poc.Memory.Allocator.{BumpAllocator}
use kv_rdma_poc.Server.EntryMap.{DashMap}
use kv_rdma_poc.Server.{KvCacheServer, put_value}
use kv_rdma_poc.Server.Serving.{IsServing}
use kv_rdma_poc.Client
use kv_rdma_poc.Client.{Process, max_value_size, get_pending}
use kv_rdma_poc.Client.Get.Local.{host, local_stub, IsReceiving, IsApart}
use kv_rdma_poc.Client.Put.{reading_at-put, get-put_local}
use kv_rdma_poc.Prompt.{
  Utf8, Output, text, mark, Terminal, show_value, cmd_get, cmd_put, run_parts, run_line, prompt,
}

put-IsWord : IsWord (codes "put")
unfolding is_white
put-IsWord = ((λ e. absurd (cc e)), (refl, (refl, (refl, tt))))

get-IsWord : IsWord (codes "get")
unfolding is_white
get-IsWord = ((λ e. absurd (cc e)), (refl, (refl, (refl, tt))))

module _ {R : Type 0} (U : Utf8) where
  run_line-words :
      (w : List ℕ) (ws : List (List ℕ)) (t : Terminal R)
      → All IsWord (w ∷ ws)
      → run_line U (print_words w ws) t ≡ run_parts U (w ∷ ws) t
  unfolding run_line
  run_line-words [] ws t h = absurd (h.0.0 refl)
  run_line-words (c ∷ w) [] t h =
      ap (λ (xs : List (List ℕ)). run_parts U xs t)
        (split_whitespace-trim (print_words (c ∷ w) []) ∙ split_whitespace-print_words (c ∷ w) [] h)
  run_line-words (c ∷ w) (v ∷ ws) t h =
      ap (λ (xs : List (List ℕ)). run_parts U xs t)
        (split_whitespace-trim (print_words (c ∷ w) (v ∷ ws))
          ∙ split_whitespace-print_words (c ∷ w) (v ∷ ws) h)

  -- A line after which the prompt goes on.
  prompt_line :
      (line : List ℕ) (rest : List (Outcome Message (List ℕ))) (t t' : Terminal R)
      → run_line U line (record t { printed = t.printed ++ mark ∷ [] }) ≡ (ok true, t')
      → prompt U (ok line ∷ rest) t ≡ prompt U rest t'
  unfolding prompt
  prompt_line line rest t t' e = rw e refl

  abbrev after : Process R → List Output → Terminal R
  after p os = record { process = p; printed = os }

  put_line :
      (k v : List ℕ) (p : Process R) (os : List Output)
      → IsWord k
      → IsWord v
      → (Client.put (U.as_bytes k) (U.as_bytes v) 0 p).0 ≡ ok tt
      → run_line U (print_words (codes "put") (k ∷ v ∷ [])) (after p os) ≡ (
        ok true,
        after (Client.put (U.as_bytes k) (U.as_bytes v) 0 p).1 (os ++ text (codes "OK") ∷ []),
      )
  unfolding run_parts cmd_put
  put_line k v p os hk hv done =
      run_line-words (codes "put") (k ∷ v ∷ []) (after p os) (put-IsWord, (hk, (hv, tt)))
      ∙ rw (done, run_parts, cmd_put) refl

  get_line :
      (k v : List ℕ) (p : Process R) (os : List Output)
      → IsWord k
      → (Client.get (U.as_bytes k) p).0 ≡ ok (U.as_bytes v)
      → run_line U (print_words (codes "get") (k ∷ [])) (after p os)
        ≡ (ok true, after (Client.get (U.as_bytes k) p).1 (os ++ text v ∷ []))
  unfolding run_parts cmd_get
  get_line k v p os hk done =
      run_line-words (codes "get") (k ∷ []) (after p os) (get-IsWord, (hk, tt))
      ∙ rw (done, run_parts, cmd_get) (rw (U.from_utf8-as_bytes v, show_value) refl)

-- At the prompt of a connected client in the process of a serving host, whose pool is apart from
-- the host's and ready to receive, with no request under its next id and a receive buffer given,
-- the line put with two words and the line get with the first of them print OK and the second
-- word, each after a mark, and the prompt goes on, where the second word encodes to whole pages
-- and at most a megabyte and the server stores it.
pub prompt_put_get :
    (D : DashMap) (now : ℕ) (U : Utf8) (k v : List ℕ) (t : Terminal (KvCacheServer D))
    (rest : List (Outcome Message (List ℕ))) (offset : ℕ) (b : BumpAllocator)
    → IsWord k
    → IsWord v
    → t.process.grpc_client ≡ some (local_stub D now)
    → IsServing (host D t.process.remote t.process.memory)
    → length (U.as_bytes v) ≤ max_value_size
    → Multiple t.process.remote.memory_pool.allocator.alignment (length (U.as_bytes v))
    → (put_value D (U.as_bytes k) (U.as_bytes v) 0 now (host D t.process.remote t.process.memory)).0
      ≡ ok tt
    → IsReceiving t.process.memory_pool
    → IsApart t.process.memory_pool t.process.remote.memory_pool
    → get_pending t.process.request_counter t.process.pending ≡ none
    → Allocator.allocate {E = Message} max_value_size t.process.memory_pool.allocator
      ≡ (ok (some offset), b)
    → (p : Process (KvCacheServer D)) × (prompt U
          (ok (print_words (codes "put") (k ∷ v ∷ []))
            ∷ ok (print_words (codes "get") (k ∷ []))
            ∷ rest)
          t
        ≡ prompt U rest (record {
          process = p;
          printed =
              (((t.printed ++ mark ∷ []) ++ text (codes "OK") ∷ []) ++ mark ∷ []) ++ text v ∷ [];
        }))
prompt_put_get D now U k v t rest offset b hk hv local s small units done r pools fresh given =
    let (put_ok, get_ok) =
      get-put_local D now (U.as_bytes k) (U.as_bytes v) 0 t.process now offset b local s small units
        done r pools fresh given (inl refl) in
    let p1 : Process (KvCacheServer D) = (Client.put (U.as_bytes k) (U.as_bytes v) 0 t.process).1 in
    let same = reading_at-put D now (U.as_bytes k) (U.as_bytes v) 0 t.process local (omega arith) in
    (
      (Client.get (U.as_bytes k) p1).1,
      prompt_line U (print_words (codes "put") (k ∷ v ∷ [])) _ t _
            (put_line U k v t.process _ hk hv put_ok)
          ∙ prompt_line U (print_words (codes "get") (k ∷ [])) rest _ _ (
              get_line U k v p1 _ hk (
                ap (λ (p : Process (KvCacheServer D)). (Client.get (U.as_bytes k) p).0) (sym same)
                ∙ get_ok)),
    )
