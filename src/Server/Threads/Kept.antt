-- ===== src/Server/Threads/Kept.antt =====
-- What a get finds after any schedule that leaves its key alone.
use mathlib.Core.Logic.{if_pos, if_neg}
use kv_rdma_poc.Shared.{
  ℕ, ◌≡◌, ◌≢◌, refl, ap, ◌∙◌, inl, inr, List, [], ◌∷◌, some, arith, length, All, ℕ_discrete,
  Outcome, ok, err, panic, Exec, and_then, true, false, Option-cases, Bool-cases, pure,
}
use kv_rdma_poc.Message.{Message}
use kv_rdma_poc.Protocol.{ValueLocation, CacheEntry, is_expired, new_entry}
use kv_rdma_poc.Memory.Bytes.{load}
use kv_rdma_poc.Memory.Pool
use kv_rdma_poc.Server.EntryMap.{DashMap, Key}
use kv_rdma_poc.Server.{Host, on_pool, on_memory, release, get_and_transfer}
use kv_rdma_poc.Server.Put.{store_entry_lem}
use kv_rdma_poc.Server.Get.{IsTarget, target, transfer_copies, get_arrives}
use kv_rdma_poc.Server.Serving.{IsServing}
use kv_rdma_poc.Server.History.{IsLive}
use kv_rdma_poc.Server.Threads.{
  Point, idle, storing, freeing, expiring, sending, System, Event, puts, gets, deletes, goes_on,
  update, write_value, then_store, begin_put, begin_delete, begin_get, go_on, act, step, run,
}
use kv_rdma_poc.Server.Threads.Safe.{run-IsSafe, start-IsSafe, safe-IsServing, step-IsSafe}
use kv_rdma_poc.Server.Threads.Acted.{IsAllowed, IsSafe, Sends}

-- A call that neither puts nor deletes the key, and whose clock does not show that an entry of it
-- with this time to live has expired.
abbrev pub Keeps : Key → (ttl_seconds created : ℕ) → Event → Type 0
Keeps key ttl_seconds created (puts j value t now) = j ≢ key
Keeps key ttl_seconds created (gets j loc now) = IsLive ttl_seconds created now
Keeps key ttl_seconds created (deletes j) = j ≢ key
Keeps key ttl_seconds created goes_on = Unit

-- The task will not touch the entry of the key.
abbrev Spares : Key → Point → Type 0
Spares key (storing j e) = j ≢ key
Spares key (expiring j) = j ≢ key
Spares key _ = Unit

module _ (D : DashMap) where
  and_then-cache :
      {A B : Type 0} (c : D.Map) (x : Outcome Message A × Host D) (k : A → Exec (Host D) Message B)
      → x.1.cache ≡ c
      → ((a : A) (h : Host D) → h.cache ≡ c → (k a h).1.cache ≡ c)
      → (and_then x k).1.cache ≡ c
  and_then-cache c (ok a, h) k e f = f a h e
  and_then-cache c (err m, h) k e f = e
  and_then-cache c (panic, h) k e f = e

  write_value-cache :
      (value : List ℕ) (ttl_seconds now : ℕ) (h : Host D)
      → (write_value D value ttl_seconds now h).1.cache ≡ h.cache
  unfolding write_value
  write_value-cache value ttl_seconds now h =
      and_then-cache h.cache (on_pool D (Pool.allocate (length value)) h)
        (λ a h.
          and_then (on_memory D (λ h. Pool.write h.memory_pool a.offset value) h)
            (λ _. pure (new_entry value a.offset ttl_seconds now)))
        refl
        λ a h' same.
          and_then-cache h.cache (on_memory D (λ h. Pool.write h.memory_pool a.offset value) h')
            (λ _. pure (new_entry value a.offset ttl_seconds now)) same λ _ h'' same'. same'

  module _ (key : Key) (e : CacheEntry) (h : Host D) (found : D.get key h.cache ≡ some e) where
    -- After a step, the entry is there and the task spares it.
    abbrev IsKept : Point × Host D → Type 0
    IsKept r = (D.get key r.1.cache ≡ some e) × Spares key r.0

    begin_put-IsKept :
        (j : Key) (value : List ℕ) (ttl_seconds now : ℕ)
        → j ≢ key
        → IsKept (begin_put D j value ttl_seconds now h)
    unfolding begin_put
    begin_put-IsKept j value ttl_seconds now other = (
      ap (D.get key) (write_value-cache value ttl_seconds now h) ∙ found,
      spares (write_value D value ttl_seconds now h).0,
    )
      where
        spares : (r : Outcome Message CacheEntry) → Spares key (then_store j r)
        spares (ok d) = other
        spares (err m) = tt
        spares panic = tt

    begin_get-IsKept :
        (j : Key) (loc : ValueLocation) (now : ℕ)
        → IsLive e.ttl_seconds e.created_at now
        → IsKept (begin_get D j loc now h)
    unfolding begin_get
    begin_get-IsKept j loc now live = elim (Option-cases (D.get j h.cache)) [
      | inl missing ↦ rw (missing, begin_get) (found, tt)
      | inr (f, found_j) ↦
          rw (found_j, begin_get)
            (elim (Bool-cases (is_expired f now)) [
              | inl dead ↦ rw dead (found, other f found_j dead)
              | inr here ↦ rw here (found, tt)
            ])
    ]
      where
        not_dead : is_expired e now ≡ true → ⊥
        not_dead dead = unfold is_expired in ground arith

        other : (f : CacheEntry) → D.get j h.cache ≡ some f → is_expired f now ≡ true → j ≢ key
        other f found_j dead same = not_dead (ap (λ x. is_expired x now) (eq same) ∙ dead)
          where
            eq : j ≡ key → e ≡ f
            eq same = cc

    begin_delete-IsKept : (j : Key) → j ≢ key → IsKept (begin_delete D j h)
    unfolding begin_delete
    begin_delete-IsKept j other = elim (Option-cases (D.get j h.cache)) [
      | inl missing ↦
          rw (D.remove_old j h.cache, missing, begin_delete)
            (D.get-remove_ne j key h.cache other ∙ found, tt)
      | inr (f, found_j) ↦
          rw (D.remove_old j h.cache, found_j, begin_delete)
            (D.get-remove_ne j key h.cache other ∙ found, tt)
    ]

module _ (D : DashMap) (start : Host D) (key : Key) (e : CacheEntry) where
  go_on-IsKept :
      (p : Point) (h : Host D)
      → IsServing h
      → Sends D start h.memory_pool p
      → Spares key p
      → D.get key h.cache ≡ some e
      → D.get key (go_on D p h).cache ≡ some e
  unfolding go_on release
  go_on-IsKept idle h s can spared found = found
  go_on-IsKept (storing j d) h s can other found =
      rw (store_entry_lem D j d h, go_on) (D.get-insert_ne j key d h.cache other ∙ found)
  go_on-IsKept (freeing d) h s can spared found = found
  go_on-IsKept (expiring j) h s can other found = D.get-remove_ne j key h.cache other ∙ found
  go_on-IsKept (sending d loc) h s can spared found =
      rw
        (
          transfer_copies D [] loc 0 h d s.consistent.registered s.delivers can.target can.bound,
          go_on,
        )
        found

  act-IsKept :
      (event : Event) (p : Point) (h : Host D)
      → IsServing h
      → Sends D start h.memory_pool p
      → Keeps key e.ttl_seconds e.created_at event
      → Spares key p
      → (found : D.get key h.cache ≡ some e) → IsKept D key e h found (act D event p h)
  unfolding act
  act-IsKept (puts j value ttl_seconds now) idle h s can other spared found =
      begin_put-IsKept D key e h found j value ttl_seconds now other
  act-IsKept (gets j loc now) idle h s can live spared found =
      begin_get-IsKept D key e h found j loc now live
  act-IsKept (deletes j) idle h s can other spared found =
      begin_delete-IsKept D key e h found j other
  act-IsKept goes_on p h s can kept spared found = (go_on-IsKept p h s can spared found, tt)
  act-IsKept event p h s can kept spared found = (found, spared)

  run-IsKept :
      (events : List (ℕ × Event)) (s : System D)
      → IsSafe D start s
      → All (λ (v : ℕ × Event). IsAllowed D start v.1) events
      → All (λ (v : ℕ × Event). Keeps key e.ttl_seconds e.created_at v.1) events
      → ((i : ℕ) → Spares key (s.tasks i))
      → D.get key s.host.cache ≡ some e
      → D.get key (run D events s).host.cache ≡ some e
  unfolding run step
  run-IsKept [] s safe a kept spared found = found
  run-IsKept ((i, event) ∷ rest) s safe a kept spared found =
      run-IsKept rest (step D i event s) (step-IsSafe D start i event s a.0 safe) a.1 kept.1 spares
        acted.0
    where
      acted : IsKept D key e s.host found (act D event (s.tasks i) s.host)
      acted =
          act-IsKept event (s.tasks i) s.host (safe-IsServing D start s safe) (safe.sent i) kept.0
            (spared i) found

      spares : (j : ℕ) → Spares key (update s.tasks i (act D event (s.tasks i) s.host).0 j)
      spares j = elim (ℕ_discrete i j) [
        | yes same ↦
            rw (if_pos (ℕ_discrete i j) same (act D event (s.tasks i) s.host).0 (s.tasks j)) acted.1
        | no other ↦
            rw (if_neg (ℕ_discrete i j) other (act D event (s.tasks i) s.host).0 (s.tasks j))
              (spared j)
      ]

  -- On a serving host with an entry of a key, after any schedule of tasks that start idle, whose
  -- values are whole pages of at most max_len bytes and whose targets are not null, do not wrap
  -- round and lie outside the pool, and of which none puts or deletes the key or gets anything
  -- after the expiry of the entry, a get of the key before its expiry, with a target that is not
  -- null and does not wrap round, reports the length of the value and delivers the value.
  pub get_after_schedule :
      (events : List (ℕ × Event)) (now : ℕ) (loc : ValueLocation)
      → IsServing start
      → D.get key start.cache ≡ some e
      → All (λ (v : ℕ × Event). IsAllowed D start v.1) events
      → All (λ (v : ℕ × Event). Keeps key e.ttl_seconds e.created_at v.1) events
      → IsTarget loc
      → IsLive e.ttl_seconds e.created_at now
      → let s = run D events (record { host = start; tasks = λ _. idle }) in
        let r = get_and_transfer D key loc now s.host in
        (r.0 ≡ ok (length e.value)) × (load r.1.memory (target loc) (length e.value) ≡ e.value)
  get_after_schedule events now loc s found a kept l live = delivered (
      get_arrives D key loc now after.host e 0 0 serving.consistent serving.delivers l
        (run-IsKept events begun (start-IsSafe D start s) a kept (λ i. tt) found) not_dead
        (inl (omega arith)))
    where
      begun : System D
      begun = record { host = start; tasks = λ _. idle }

      after : System D
      after = run D events begun

      serving : IsServing after.host
      serving =
          safe-IsServing D start after (run-IsSafe D start events begun a (start-IsSafe D start s))

      not_dead : is_expired e now ≡ false
      not_dead = unfold is_expired in ground arith

      delivered :
          let r = get_and_transfer D key loc now after.host in
          (r.0 ≡ ok (length e.value))
            × (load r.1.memory (target loc) (length e.value) ≡ e.value)
            × (load r.1.memory 0 0 ≡ load after.host.memory 0 0)
            × (r.1.server ≡ after.host.server)
          → (r.0 ≡ ok (length e.value)) × (load r.1.memory (target loc) (length e.value) ≡ e.value)
      delivered (length_ok, bytes_ok, _, _) = (length_ok, bytes_ok)
