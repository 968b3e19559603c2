-- ===== src/Server/Threads/Safe.antt =====
-- What holds of the blocks of the pool after any schedule.
use mathlib.Core.Logic.{if_pos, if_neg}
use kv_rdma_poc.Shared.{
  ℕ, zero, suc, ◌+◌, ◌≤◌, ◌≡◌, ◌≢◌, refl, ap, List, [], ◌∷◌, some, length, All, ℕ_discrete,
}
use kv_rdma_poc.Protocol.{CacheEntry}
use kv_rdma_poc.Memory.Bytes.{load}
use kv_rdma_poc.Memory.FreeList.{cover}
use kv_rdma_poc.Memory.Allocator.Sound.{inside}
use kv_rdma_poc.Server.EntryMap.{DashMap, Key}
use kv_rdma_poc.Server.{Host}
use kv_rdma_poc.Server.Consistent.{holds, IsConsistent}
use kv_rdma_poc.Server.Serving.{IsServing}
use kv_rdma_poc.Server.Threads.{idle, System, Event, act, step, run}
use kv_rdma_poc.Server.Threads.Overlay.{of_map, of_task, overlay, mirror, relocate-IsServing}
use kv_rdma_poc.Server.Threads.Moves.{owned}
use kv_rdma_poc.Server.Threads.Grows.{same-Grows, Grows-trans}
use kv_rdma_poc.Server.Threads.Acted.{
  flights, flights-update, Sends-Grows, IsAllowed, IsSafe, IsActed, act-IsActed,
}

module _ (D : DashMap) where
  -- The map, and the blocks of the tasks beside it.
  pub record IsSound (s : System D) : Type 0 where
    pub consistent : IsConsistent s.host
    -- a block that a task is storing or freeing has its value in the pool
    pub written :
        (i : ℕ) (e : CacheEntry)
        → owned (s.tasks i) ≡ some e
        → load s.host.memory (s.host.memory_pool.buffer + e.offset) (length e.value) ≡ e.value
    -- it lies below the bump offset, and its bytes are not free
    pub bound :
        (i : ℕ) (e : CacheEntry)
        → owned (s.tasks i) ≡ some e
        → e.offset + length e.value ≤ s.host.memory_pool.allocator.offset
    pub not_free :
        (i : ℕ) (e : CacheEntry) (x : ℕ)
        → owned (s.tasks i) ≡ some e
        → holds x e + cover x s.host.memory_pool.allocator.free_list
          ≤ inside x s.host.memory_pool.allocator.offset
    -- its bytes are in no entry of the map
    pub apart :
        (i : ℕ) (e f : CacheEntry) (k : Key) (x : ℕ)
        → owned (s.tasks i) ≡ some e
        → D.get k s.host.cache ≡ some f
        → holds x e + holds x f + cover x s.host.memory_pool.allocator.free_list
          ≤ inside x s.host.memory_pool.allocator.offset
    -- and in no block of another task
    pub tasks_apart :
        (i j : ℕ) (e f : CacheEntry) (x : ℕ)
        → i ≢ j
        → owned (s.tasks i) ≡ some e
        → owned (s.tasks j) ≡ some f
        → holds x e + holds x f + cover x s.host.memory_pool.allocator.free_list
          ≤ inside x s.host.memory_pool.allocator.offset

-- The key of the map that a key stands for.
plain : Key → Key
plain (zero ∷ k) = k
plain k = k

module _ (D : DashMap) (start : Host D) where
  pub step-IsSafe :
      (i : ℕ) (event : Event) (s : System D)
      → IsAllowed D start event
      → IsSafe D start s
      → IsSafe D start (step D i event s)
  unfolding step
  step-IsSafe i event s a safe = record {
    serving = rw (flights-update s.tasks i (act D event (s.tasks i) s.host).0) acted.serving;
    grown = Grows-trans safe.grown acted.grown;
    sent = λ j. elim (ℕ_discrete i j) [
      | yes same ↦
          rw (if_pos (ℕ_discrete i j) same (act D event (s.tasks i) s.host).0 (s.tasks j))
            acted.sent
      | no other ↦
          rw (if_neg (ℕ_discrete i j) other (act D event (s.tasks i) s.host).0 (s.tasks j)) (
            Sends-Grows D start s.host.memory_pool (act D event (s.tasks i) s.host).1.memory_pool
              acted.grown (s.tasks j) (safe.sent j))
    ];
  }
    where
      acted : IsActed D start s safe i (act D event (s.tasks i) s.host)
      acted = act-IsActed D start s safe i event (s.tasks i) refl a

  pub run-IsSafe :
      (events : List (ℕ × Event)) (s : System D)
      → All (λ (e : ℕ × Event). IsAllowed D start e.1) events
      → IsSafe D start s
      → IsSafe D start (run D events s)
  unfolding run
  run-IsSafe [] s a safe = safe
  run-IsSafe ((i, event) ∷ rest) s a safe =
      run-IsSafe rest (step D i event s) a.1 (step-IsSafe i event s a.0 safe)

  pub start-IsSafe : IsServing start → IsSafe D start (record { host = start; tasks = λ _. idle })
  unfolding plain
  start-IsSafe s = record {
    serving =
        relocate-IsServing {E = overlay D} start (start.cache, flights (λ _. idle)) plain there
          (λ k j e d ne found found'. one_key k j e d ne found found') s;
    grown = same-Grows;
    sent = λ i. tt;
  }
    where
      there :
          (k : Key) (e : CacheEntry)
          → (overlay D).get k (start.cache, flights (λ _. idle)) ≡ some e
          → D.get (plain k) start.cache ≡ some e
      there [] e found = cc
      there (zero ∷ k) e found = found
      there (suc i ∷ []) e found = cc
      there (suc i ∷ j ∷ k) e found = cc

      one_key :
          (k j : Key) (e d : CacheEntry)
          → k ≢ j
          → (overlay D).get k (start.cache, flights (λ _. idle)) ≡ some e
          → (overlay D).get j (start.cache, flights (λ _. idle)) ≡ some d
          → plain k ≢ plain j
      one_key (zero ∷ k) (zero ∷ j) e d ne found found' same = ne (ap of_map same)
      one_key [] j e d ne found found' same = cc
      one_key (suc i ∷ []) j e d ne found found' same = cc
      one_key (suc i ∷ a ∷ k) j e d ne found found' same = cc
      one_key k [] e d ne found found' same = cc
      one_key k (suc i ∷ []) e d ne found found' same = cc
      one_key k (suc i ∷ a ∷ j) e d ne found found' same = cc

  pub safe-IsServing : (s : System D) → IsSafe D start s → IsServing s.host
  safe-IsServing s safe =
      relocate-IsServing {E = D} (mirror s.host (flights s.tasks)) s.host.cache of_map
        (λ k e found. found) (λ k j e d ne found found' same. ne (cc)) safe.serving

  safe-IsSound : (s : System D) → IsSafe D start s → IsSound D s
  safe-IsSound s safe = record {
    consistent = (safe-IsServing s safe).consistent;
    written = λ i e held. safe.serving.consistent.bytes (of_task i) e held;
    bound = λ i e held. safe.serving.consistent.bound (of_task i) e held;
    not_free = λ i e x held. safe.serving.consistent.owned (of_task i) e x held;
    apart = λ i e f k x held found.
        safe.serving.consistent.apart (of_task i) (of_map k) e f x (λ same. cc) held found;
    tasks_apart = λ i j e f x ne held held'.
        safe.serving.consistent.apart (of_task i) (of_task j) e f x (λ same. ne (cc)) held held';
  }

  -- For any schedule of tasks that start idle on a serving host, whose values are whole pages of
  -- at most max_len bytes and whose targets are not null, do not wrap round and lie outside the
  -- pool, where a put can be cut before its insert, a delete before it frees, and a get after its
  -- lookup, the host ends consistent, every block that a task is still storing or freeing has its
  -- value in the pool, below the bump offset, and no byte of such a block is free, in an entry of
  -- the map or in the block of another task.
  pub run-IsSound :
      (events : List (ℕ × Event))
      → IsServing start
      → All (λ (e : ℕ × Event). IsAllowed D start e.1) events
      → IsSound D (run D events (record { host = start; tasks = λ _. idle }))
  run-IsSound events s a =
      safe-IsSound (run D events (record { host = start; tasks = λ _. idle }))
        (run-IsSafe events (record { host = start; tasks = λ _. idle }) a (start-IsSafe s))
