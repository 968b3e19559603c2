-- ===== src/Server/Refine.antt =====
-- The server does what the map of Server/Abstract.antt does.
use mathlib.Core.Path.{fun_ext}
use mathlib.Core.Option
use kv_rdma_poc.Shared.{
  ℕ, ◌+◌, ◌≡◌, ◌≢◌, refl, sym, ap, ◌∙◌, inl, inr, Bool, true, false, List, [], ◌∷◌, Option, none,
  some, arith, length, Outcome, ok, err, panic, Option-cases, Bool-cases,
}
use kv_rdma_poc.Message.{Message, Status, key_expired}
use kv_rdma_poc.Protocol.{ValueLocation, CacheEntry, is_expired}
use kv_rdma_poc.Memory.Bytes.{load, load-copy}
use kv_rdma_poc.Memory.Allocator.{BumpAllocator}
use kv_rdma_poc.Memory.Allocator.Granular.{granular-CanServe}
use kv_rdma_poc.Server.EntryMap.{DashMap, Key}
use kv_rdma_poc.Server.{Host, put_value, get_and_transfer, delete_value}
use kv_rdma_poc.Server.Put.{entry_at, after_put, put_value_cases}
use kv_rdma_poc.Server.Stored.{Key-discrete}
use kv_rdma_poc.Server.Get.{target, get_and_transfer_found, get_missing, get_expired}
use kv_rdma_poc.Server.Delete.{is_some, delete_value_lem, after_delete}
use kv_rdma_poc.Server.Serving.{IsServing}
use kv_rdma_poc.Server.Abstract.{
  Item, Store, Answer, stored, sent, deleted, failed, broken, has, update, expired, look_up,
  respond, replay, first,
}
use kv_rdma_poc.Server.History.{Call, puts, gets, deletes, perform, IsAllowed, perform-IsServing}

abbrev item : CacheEntry → Item
item e = record { value = e.value; ttl_seconds = e.ttl_seconds; created_at = e.created_at }

abbrev of_put : Outcome Message (Unit {0}) → Answer
of_put (ok _) = stored
of_put (err m) = failed m
of_put panic = broken

module _ (D : DashMap) where
  abbrev pub view : Host D → Store
  view h k = Option.map item (D.get k h.cache)

  abbrev of_get : ValueLocation → Outcome Status ℕ × Host D → Answer
  of_get loc (ok n, h) = sent (load h.memory (target loc) n)
  of_get loc (err s, h) = failed s.message
  of_get loc (panic, h) = broken

  -- What the server answers.
  abbrev pub answer : Call → Host D → Answer
  answer (puts key value ttl_seconds now) h = of_put (put_value D key value ttl_seconds now h).0
  answer (gets key loc now) h = of_get loc (get_and_transfer D key loc now h)
  answer (deletes key) h = deleted (delete_value D key h).0

  -- A map that differs at one key is the view of the entries that differ there.
  updated :
      (key : Key) (o : Option CacheEntry) (m m' : D.Map)
      → D.get key m' ≡ o
      → ((k : Key) → key ≢ k → D.get k m' ≡ D.get k m)
      → (λ k. Option.map item (D.get k m'))
        ≡ update key (Option.map item o) (λ k. Option.map item (D.get k m))
  updated key o m m' self others = fun_ext at_key
    where
      at_key :
          (k : Key)
          → Option.map item (D.get k m')
            ≡ update key (Option.map item o) (λ j. Option.map item (D.get j m)) k
      at_key k =
          elim (Key-discrete key k)
            as (λ d.
              Option.map item (D.get k m')
              ≡ elim d [ yes _ ↦ Option.map item o | no _ ↦ Option.map item (D.get k m) ]) [
                | yes same ↦ ap (Option.map item) (ap (λ j. D.get j m') (sym same) ∙ self)
                | no other ↦ ap (Option.map item) (others k other)
              ]

  is_expired-expired : (e : CacheEntry) (now : ℕ) → is_expired e now ≡ expired (item e) now
  unfolding is_expired
  is_expired-expired e now = ground arith

  has-is_some : (o : Option CacheEntry) → has (Option.map item o) ≡ is_some o
  has-is_some none = refl
  has-is_some (some e) = refl

  delete_refines :
      (key : Key) (h : Host D)
      → ◌≡◌ {A = Answer × Store}
          (deleted (delete_value D key h).0, view (delete_value D key h).1)
          (deleted (has (view h key)), update key none (view h))
  delete_refines key h = rw (delete_value_lem D key h) (
      unfold after_delete in
      cc (
        has-is_some (D.get key h.cache),
        updated key none h.cache (D.remove key h.cache).1 (D.get-remove_self key h.cache)
            (λ k other. D.get-remove_ne key k h.cache other),
      ))

  module _ (key : Key) (value : List ℕ) (ttl_seconds now : ℕ) (h : Host D) (s : IsServing h)
      (a : IsAllowed D h (puts key value ttl_seconds now)) where
    stored_refines :
        (o : ℕ) (b : BumpAllocator)
        → view (after_put D key value ttl_seconds now h o b)
          ≡ update key
              (some (record { value = value; ttl_seconds = ttl_seconds; created_at = now }))
              (view h)
    stored_refines o b =
        unfold after_put in
        updated key (some (entry_at D key value ttl_seconds now h o)) h.cache
          (D.insert key (entry_at D key value ttl_seconds now h o) h.cache).1
          (D.get-insert_self key (entry_at D key value ttl_seconds now h o) h.cache)
          (λ k other.
            D.get-insert_ne key k (entry_at D key value ttl_seconds now h o) h.cache other)

    put_refines :
        (room : Bool) × ((
          of_put (put_value D key value ttl_seconds now h).0,
          view (put_value D key value ttl_seconds now h).1,
        )
          ≡ respond room (puts key value ttl_seconds now) (view h))
    put_refines =
        elim (put_value_cases D key value ttl_seconds now h s.consistent.registered a.0 (
          granular-CanServe (length value) h.memory_pool.allocator
            s.consistent.registered.well_formed a.0 a.1 s.free_units)) [
              | inl (refused, _, _) ↦ (false, rw refused refl)
              | inr (o, b, done, _, _) ↦
                  (true, rw done (ap (λ (m : Store). (stored, m)) (stored_refines o b)))
            ]

  module _ (key : Key) (loc : ValueLocation) (now : ℕ) (h : Host D) (s : IsServing h)
      (a : IsAllowed D h (gets key loc now)) where
    found_refines :
        (e : CacheEntry)
        → D.get key h.cache ≡ some e
        → (of_get loc (get_and_transfer D key loc now h), view (get_and_transfer D key loc now h).1)
          ≡ look_up key now (view h) (some (item e))
    found_refines e found = elim (Bool-cases (is_expired e now)) [
      | inl dead ↦
          rw (get_expired D key loc now h e found dead, sym (is_expired-expired e now) ∙ dead)
            (ap (λ (m : Store). (failed key_expired, m))
              (updated key none h.cache (D.remove key h.cache).1 (D.get-remove_self key h.cache)
                (λ k other. D.get-remove_ne key k h.cache other)))
      | inr live ↦
          rw
            (
              get_and_transfer_found D key loc now h e s.consistent s.delivers a.0 found live,
              sym (is_expired-expired e now) ∙ live,
            )
            (ap (λ (v : List ℕ). (sent v, view h))
              (load-copy h.memory (h.memory_pool.buffer + e.offset) (target loc) (length e.value)
                ∙ s.consistent.bytes key e found))
    ]

    get_refines :
        (of_get loc (get_and_transfer D key loc now h), view (get_and_transfer D key loc now h).1)
        ≡ look_up key now (view h) (view h key)
    get_refines = elim (Option-cases (D.get key h.cache)) [
      | inl missing ↦ rw (get_missing D key loc now h missing, missing) refl
      | inr (e, found) ↦
          found_refines e found ∙ sym (ap (λ o. look_up key now (view h) (Option.map item o)) found)
    ]

  -- One call on a serving host answers as the map does, and leaves the view that the map is left with.
  call_refines :
      (c : Call) (h : Host D)
      → IsServing h
      → IsAllowed D h c
      → (room : Bool) × ((answer c h, view (perform D c h)) ≡ respond room c (view h))
  call_refines (puts key value ttl_seconds now) h s a = put_refines key value ttl_seconds now h s a
  call_refines (gets key loc now) h s a = (true, get_refines key loc now h s a)
  call_refines (deletes key) h s a = (true, delete_refines key h)

  -- The answers to a list of calls, and the host after them.
  pub run : List Call → Host D → List Answer × Host D
  run [] h = ([], h)
  run (c ∷ cs) h = let (rest, h') = run cs (perform D c h) in (answer c h ∷ rest, h')

  abbrev pub AreAllowed : List Call → Host D → Type 0
  AreAllowed [] h = Unit
  AreAllowed (c ∷ cs) h = IsAllowed D h c × AreAllowed cs (perform D c h)

-- From a serving host, the answers to any calls whose values are whole pages of at most max_len
-- bytes and whose targets are not null, do not wrap round and lie outside the pool are those of a
-- map from keys to values with an expiry, for some choice of when there is no room for a put, and
-- the host ends with the view of that map.
pub run_refines :
    (D : DashMap) (cs : List Call) (h : Host D)
    → IsServing h
    → AreAllowed D cs h
    → (room : ℕ → Bool) × (((run D cs h).0, view D (run D cs h).1) ≡ replay cs room (view D h))
unfolding run replay
run_refines D [] h s a = (λ _. true, refl)
run_refines D (c ∷ cs) h s a =
    step (call_refines D c h s a.0)
      (run_refines D cs (perform D c h) (perform-IsServing D c h s a.0) a.1)
  where
    step :
        (room : Bool) × ((answer D c h, view D (perform D c h)) ≡ respond room c (view D h))
        → (room : ℕ → Bool) × (((run D cs (perform D c h)).0, view D (run D cs (perform D c h)).1)
            ≡ replay cs room (view D (perform D c h)))
        → (room : ℕ → Bool) × (((run D (c ∷ cs) h).0, view D (run D (c ∷ cs) h).1)
            ≡ replay (c ∷ cs) room (view D h))
    step (b, here) (room, later) = (
      first b room,
      cc (
        ap (λ r. r.0) here,
        ap (λ r. replay cs room r.1) here,
        ap (λ r. r.0) later,
        ap (λ r. r.1) later,
      ),
    )
