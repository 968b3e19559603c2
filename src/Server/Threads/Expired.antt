-- ===== src/Server/Threads/Expired.antt =====
-- A get of an expired entry removes its key after it has dropped the entry: `get_and_transfer` of
-- src/server.rs looks the key up with `cache.get`, and removes whatever stands there then.
use mathlib.Core.Logic.{if_pos, if_neg}
use kv_rdma_poc.Shared.{
  ℕ, ◌≡◌, ◌≢◌, refl, sym, ap, subst, ◌∙◌, List, [], ◌∷◌, none, some, ℕ_discrete, Outcome, ok, err,
  panic, and_then, true, Exec, length, pure,
}
use kv_rdma_poc.Message.{Message}
use kv_rdma_poc.Protocol.{ValueLocation, CacheEntry, is_expired, new_entry}
use kv_rdma_poc.Memory.Pool
use kv_rdma_poc.Server.EntryMap.{DashMap, Key}
use kv_rdma_poc.Server.{Host, set_cache, on_pool, on_memory, store_entry, put_value}
use kv_rdma_poc.Server.Put.{store_entry_lem}
use kv_rdma_poc.Server.Threads.{
  Point, idle, expiring, System, Event, puts, gets, goes_on, update, write_value, then_store,
  begin_put, begin_get, go_on, act, step, run,
}
use kv_rdma_poc.Server.Threads.Moves.{put_value-write_value}

module _ (D : DashMap) (i j : ℕ) (apart : i ≢ j) (key : Key) (loc : ValueLocation) (now : ℕ)
    (value : List ℕ) (ttl_seconds later : ℕ) (e : CacheEntry) (h : Host D) where
  -- The put of the second task runs after the lookup of the first, and before its removal.
  abbrev pub late_removal : List (ℕ × Event)
  late_removal =
      (i, gets key loc now)
      ∷ (j, puts key value ttl_seconds later)
      ∷ (j, goes_on)
      ∷ (i, goes_on)
      ∷ []

  abbrev put : Host D
  put = (put_value D key value ttl_seconds later h).1

  -- The entry that a put makes has its value.
  abbrev HasValue : Outcome Message CacheEntry → Type 0
  HasValue (ok d) = d.value ≡ value
  HasValue _ = Unit

  and_then-HasValue :
      {A : Type 0} (x : Outcome Message A × Host D) (k : A → Exec (Host D) Message CacheEntry)
      → ((a : A) (h : Host D) → HasValue (k a h).0)
      → HasValue (and_then x k).0
  and_then-HasValue (ok a, h) k f = f a h
  and_then-HasValue (err m, h) k f = tt
  and_then-HasValue (panic, h) k f = tt

  write_value-HasValue : HasValue (write_value D value ttl_seconds later h).0
  unfolding write_value
  write_value-HasValue =
      and_then-HasValue (on_pool D (Pool.allocate (length value)) h)
        (λ a h.
          and_then (on_memory D (λ h. Pool.write h.memory_pool a.offset value) h)
            (λ _. pure (new_entry value a.offset ttl_seconds later)))
        λ a h.
          and_then-HasValue (on_memory D (λ h. Pool.write h.memory_pool a.offset value) h)
            (λ _. pure (new_entry value a.offset ttl_seconds later)) λ _ _. refl

  abbrev HoldsValue : Host D → Type 0
  HoldsValue h' = (d : CacheEntry) × (D.get key h'.cache ≡ some d) × (d.value ≡ value)

  stored :
      (x : Outcome Message CacheEntry × Host D)
      → HasValue x.0
      → (and_then x (store_entry D key)).0 ≡ ok tt
      → HoldsValue (and_then x (store_entry D key)).1
  stored (ok d, h') same done = (
    d,
    ap (λ x. D.get key (x.1).cache) (store_entry_lem D key d h') ∙ D.get-insert_self key d h'.cache,
    same,
  )
  stored (err m, h') same done = absurd (cc done)
  stored (panic, h') same done = absurd (cc done)

  put-HoldsValue : (put_value D key value ttl_seconds later h).0 ≡ ok tt → HoldsValue put
  put-HoldsValue done =
      subst (λ x. HoldsValue (x.1)) (sym split)
        (stored (write_value D value ttl_seconds later h) write_value-HasValue
          (ap (λ x. x.0) (sym split) ∙ done))
    where
      split :
          put_value D key value ttl_seconds later h
          ≡ and_then (write_value D value ttl_seconds later h) (store_entry D key)
      split = put_value-write_value D key value ttl_seconds later h

  -- The two steps of a put are the put.
  put_in_two :
      (x : Outcome Message CacheEntry × Host D)
      → go_on D (then_store key x.0) x.1 ≡ (and_then x (store_entry D key)).1
  unfolding go_on
  put_in_two (ok d, h') = refl
  put_in_two (err m, h') = refl
  put_in_two (panic, h') = refl

  step_as :
      (k : ℕ) (event : Event) (p q : Point) (h1 h2 : Host D) (tasks : ℕ → Point)
      → tasks k ≡ p
      → act D event p h1 ≡ (q, h2)
      → step D k event (record { host = h1; tasks = tasks })
        ≡ record { host = h2; tasks = update tasks k q }
  unfolding step
  step_as k event p q h1 h2 tasks at acts = rw (at, acts)

  at_self : (tasks : ℕ → Point) (k : ℕ) (p : Point) → update tasks k p k ≡ p
  at_self tasks k p = if_pos (ℕ_discrete k k) refl p (tasks k)

  at_i : (tasks : ℕ → Point) (p : Point) → update tasks j p i ≡ tasks i
  at_i tasks p = if_neg (ℕ_discrete j i) (λ same. apart (sym same)) p (tasks i)

  at_j : (tasks : ℕ → Point) (p : Point) → update tasks i p j ≡ tasks j
  at_j tasks p = if_neg (ℕ_discrete i j) apart p (tasks j)

  abbrev p : Point
  p = then_store key (write_value D value ttl_seconds later h).0

  abbrev none_begun : ℕ → Point
  none_begun _ = idle

  abbrev looked : ℕ → Point
  looked = update none_begun i (expiring key)

  abbrev putting : ℕ → Point
  putting = update looked j p

  abbrev done_putting : ℕ → Point
  done_putting = update putting j idle

  abbrev last : System D
  last = record {
    host = set_cache D (D.remove key put.cache).1 put;
    tasks = update done_putting i idle;
  }

  module _ (found : D.get key h.cache ≡ some e) (dead : is_expired e now ≡ true) where
    looks_up : act D (gets key loc now) idle h ≡ (expiring key, h)
    unfolding act begin_get
    looks_up = rw (found, begin_get) (rw dead refl)

    goes : (q : Point) (h' h2 : Host D) → go_on D q h' ≡ h2 → act D goes_on q h' ≡ (idle, h2)
    unfolding act
    goes q h' h2 e = rw e

    late_removal-last : run D late_removal (record { host = h; tasks = none_begun }) ≡ last
    unfolding run act begin_put go_on
    late_removal-last =
        ap (run D ((j, puts key value ttl_seconds later) ∷ (j, goes_on) ∷ (i, goes_on) ∷ []))
          (step_as i (gets key loc now) idle (expiring key) h h none_begun refl looks_up)
        ∙ ap (run D ((j, goes_on) ∷ (i, goes_on) ∷ [])) (
            step_as j (puts key value ttl_seconds later) idle p h
              (write_value D value ttl_seconds later h).1 looked (at_j none_begun (expiring key))
              refl)
        ∙ ap (run D ((i, goes_on) ∷ [])) (
            step_as j goes_on p idle (write_value D value ttl_seconds later h).1 put putting
              (at_self looked j p) put_goes_on)
        ∙ step_as i goes_on (expiring key) idle put (set_cache D (D.remove key put.cache).1 put)
            done_putting (at_i putting idle ∙ at_i looked p ∙ at_self none_begun i (expiring key))
            refl
      where
        put_goes_on : act D goes_on p (write_value D value ttl_seconds later h).1 ≡ (idle, put)
        put_goes_on = goes p (write_value D value ttl_seconds later h).1 put (
            put_in_two (write_value D value ttl_seconds later h)
            ∙ sym (ap (λ x. x.1) (put_value-write_value D key value ttl_seconds later h)))

    -- Where a task has looked up an expired entry, and before it goes on another task puts the key
    -- and is answered ok, the map holds an entry of the key with the new value after the put, and
    -- when the first task has gone on it holds none, while the pool is as the put left it.
    pub expired_get-drops-put :
        (put_value D key value ttl_seconds later h).0 ≡ ok tt
        → let s = run D late_removal (record { host = h; tasks = λ _. idle }) in
          (d : CacheEntry) × (D.get key put.cache ≡ some d)
          × (d.value ≡ value)
          × (D.get key s.host.cache ≡ none)
          × (s.host.memory_pool ≡ put.memory_pool)
    expired_get-drops-put done =
        let (d, there, same) = put-HoldsValue done in
        rw late_removal-last (d, there, same, D.get-remove_self key put.cache, refl)
