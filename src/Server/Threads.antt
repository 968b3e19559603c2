-- ===== src/Server/Threads.antt =====
-- The handlers of src/server.rs on several tasks at once. A call of the service is cut where
-- another task can see or change what it works on: `put_value` between the write to the pool and
-- `cache.insert`, `delete_value` between `cache.remove` and the return of the memory, and
-- `get_and_transfer` after `cache.get`. Any step can follow any other, also where the lock of the
-- pool rules it out. The bytes of one transfer are copied in one step.
pub mod Overlay
pub mod Moves
pub mod Grows
pub mod Acted
pub mod Safe
pub mod Kept
pub mod Expired
use mathlib.Core.Logic.{ite}
use kv_rdma_poc.Shared.{
  ℕ, List, [], ◌∷◌, Option, none, some, ok, err, panic, if◌then◌else◌, ℕ_discrete, Outcome, Exec,
  pure, ◌>>=◌, ◌>>◌, length,
}
use kv_rdma_poc.Message.{Message}
use kv_rdma_poc.Protocol.{ValueLocation, CacheEntry, new_entry, is_expired}
use kv_rdma_poc.Memory.Pool
use kv_rdma_poc.Server.EntryMap.{DashMap, Key}
use kv_rdma_poc.Server.{Host, set_cache, on_pool, on_memory, release, store_entry, transfer}

-- What a task still has to do: `storing` before `cache.insert` of a put, `freeing` before
-- `pool.deallocate` of a delete, `expiring` before `cache.remove` of a get that has found an expired
-- entry, and `sending` before the transfer of a get.
pub data Point : Type 0 where
  idle : Point
  storing : Key → CacheEntry → Point
  freeing : CacheEntry → Point
  expiring : Key → Point
  sending : CacheEntry → ValueLocation → Point

pub record System (D : DashMap) : Type 0 where
  pub host : Host D
  pub tasks : ℕ → Point

-- What a task does next: it begins a call, or goes on with the one that it is in.
pub data Event : Type 0 where
  puts : Key → (value : List ℕ) (ttl_seconds now : ℕ) → Event
  gets : Key → ValueLocation → (now : ℕ) → Event
  deletes : Key → Event
  goes_on : Event

abbrev pub update : (ℕ → Point) → ℕ → Point → ℕ → Point
update tasks i p j = ite (ℕ_discrete i j) p (tasks j)

-- Only a put that has written its value goes on.
abbrev pub then_store : Key → Outcome Message CacheEntry → Point
then_store key (ok entry) = storing key entry
then_store key (err e) = idle
then_store key panic = idle

module _ (D : DashMap) where
  -- `put_value` as far as `CacheEntry::new`
  unfoldable pub write_value : List ℕ → ℕ → ℕ → Exec (Host D) Message CacheEntry
  unfolding new_entry
  write_value value ttl_seconds now = do
    allocation ← on_pool D (Pool.allocate (length value))
    on_memory D (λ h. Pool.write h.memory_pool allocation.offset value)
    pure (new_entry value allocation.offset ttl_seconds now)

  unfoldable pub begin_put : Key → List ℕ → ℕ → ℕ → Host D → Point × Host D
  begin_put key value ttl_seconds now h =
      let (r, h') = write_value value ttl_seconds now h in (then_store key r, h')

  -- `cache.remove` of a delete
  unfoldable pub begin_delete : Key → Host D → Point × Host D
  begin_delete key h =
      let (removed, cache) = D.remove key h.cache in
      elim removed [
        | none ↦ (idle, set_cache D cache h)
        | some (k, e) ↦ (freeing e, set_cache D cache h)
      ]

  -- `cache.get` and the test of the entry
  unfoldable pub begin_get : Key → ValueLocation → ℕ → Host D → Point × Host D
  begin_get key loc now h = elim (D.get key h.cache) [
    | none ↦ (idle, h)
    | some entry ↦ (if is_expired entry now then expiring key else sending entry loc, h)
  ]

  unfoldable pub go_on : Point → Host D → Host D
  go_on idle h = h
  go_on (storing key entry) h = (store_entry D key entry h).1
  go_on (freeing entry) h = release D entry h
  go_on (expiring key) h = set_cache D (D.remove key h.cache).1 h
  go_on (sending entry loc) h = (transfer D entry loc h).1

  -- A task begins a call only when it is idle.
  unfoldable pub act : Event → Point → Host D → Point × Host D
  unfolding begin_put begin_delete begin_get go_on
  act (puts key value ttl_seconds now) idle h = begin_put key value ttl_seconds now h
  act (gets key loc now) idle h = begin_get key loc now h
  act (deletes key) idle h = begin_delete key h
  act goes_on p h = (idle, go_on p h)
  act event p h = (p, h)

  unfoldable pub step : ℕ → Event → System D → System D
  unfolding act
  step i event s =
      let (p, h) = act event (s.tasks i) s.host in record { host = h; tasks = update s.tasks i p }

  -- A schedule: which task makes the next step, and what it begins.
  unfoldable pub run : List (ℕ × Event) → System D → System D
  unfolding step
  run [] s = s
  run ((i, event) ∷ rest) s = run rest (step i event s)
