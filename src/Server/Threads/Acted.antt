-- ===== src/Server/Threads/Acted.antt =====
-- What a step keeps to: the invariant of the server, with the blocks of the tasks.
use mathlib.Core.Path.{fun_ext}
use mathlib.Core.Logic.{if_pos, if_neg}
use kv_rdma_poc.Shared.{
  ℕ, zero, suc, ◌+◌, ◌≤◌, ◌≡◌, sym, ap, subst, ◌∙◌, inl, inr, List, [], ◌∷◌, Option, none, arith,
  length, Outcome, ok, err, panic, Option-cases, ℕ_discrete, Bool-cases,
}
use kv_rdma_poc.Message.{Message}
use kv_rdma_poc.Protocol.{ValueLocation, CacheEntry, is_expired}
use kv_rdma_poc.Memory.Align.{Multiple}
use kv_rdma_poc.Memory.Allocator.Conserve.{max_len}
use kv_rdma_poc.Memory.Pool.{MemoryPool}
use kv_rdma_poc.Server.EntryMap.{DashMap, Key}
use kv_rdma_poc.Server.{Host}
use kv_rdma_poc.Server.Get.{IsTarget}
use kv_rdma_poc.Server.Stored.{Key-discrete}
use kv_rdma_poc.Server.Serving.{IsServing, IsOutside}
use kv_rdma_poc.Server.Threads.{
  Point, idle, storing, freeing, expiring, sending, System, Event, puts, gets, deletes, goes_on,
  update, write_value, then_store, begin_put, begin_delete, begin_get, go_on, act,
}
use kv_rdma_poc.Server.Threads.Overlay.{
  Side, assign, assign_self, assign_ne, of_map, of_task, mirror,
}
use kv_rdma_poc.Server.Threads.Moves.{
  owned, begin_put-IsServing, begin_delete-IsServing, store_entry-IsServing, release-IsServing,
  expire-IsServing, transfer-IsServing,
}
use kv_rdma_poc.Server.Threads.Grows.{
  Grows, same-Grows, begin_put-Grows, store_entry-Grows, release-Grows, transfer-Grows,
}

-- The blocks of the tasks.
abbrev pub flights : (ℕ → Point) → Side
flights tasks [] = none
flights tasks (zero ∷ k) = none
flights tasks (suc i ∷ []) = owned (tasks i)
flights tasks (suc i ∷ j ∷ k) = none

pub flights-update :
    (tasks : ℕ → Point) (i : ℕ) (p : Point)
    → flights (update tasks i p) ≡ assign (of_task i) (owned p) (flights tasks)
flights-update tasks i p = fun_ext at
  where
    one_key : (j : ℕ) → i ≡ j → of_task i ≡ of_task j
    one_key j e = ap of_task e

    one_task : (j : ℕ) → of_task i ≡ of_task j → i ≡ j
    one_task j e = cc

    at : (k : Key) → flights (update tasks i p) k ≡ assign (of_task i) (owned p) (flights tasks) k
    at [] = sym (assign_ne (of_task i) [] (owned p) (flights tasks) (λ e. cc))
    at (zero ∷ k) = sym (assign_ne (of_task i) (zero ∷ k) (owned p) (flights tasks) (λ e. cc))
    at (suc j ∷ a ∷ k) =
        sym (assign_ne (of_task i) (suc j ∷ a ∷ k) (owned p) (flights tasks) (λ e. cc))
    at (suc j ∷ []) = elim (ℕ_discrete i j) [
      | yes e ↦
          ap owned (if_pos (ℕ_discrete i j) e p (tasks j))
          ∙ sym (assign_self (of_task i) (owned p) (flights tasks))
          ∙ ap (assign (of_task i) (owned p) (flights tasks)) (one_key j e)
      | no ne ↦
          ap owned (if_neg (ℕ_discrete i j) ne p (tasks j))
          ∙ sym
              (assign_ne (of_task i) (of_task j) (owned p) (flights tasks) (λ e. ne (one_task j e)))
    ]

assign_held : (k : Key) (o : Option CacheEntry) (g : Side) → g k ≡ o → assign k o g ≡ g
assign_held k o g held = fun_ext λ j. elim (Key-discrete k j) [
  | yes same ↦ if_pos (Key-discrete k j) same o (g j) ∙ sym held ∙ ap g same
  | no other ↦ if_neg (Key-discrete k j) other o (g j)
]

module _ (D : DashMap) (start : Host D) where
  -- Values are whole pages, and the clients' buffers lie outside the pool.
  abbrev pub IsAllowed : Event → Type 0
  IsAllowed (puts key value ttl_seconds now) =
      (length value ≤ max_len) × Multiple start.memory_pool.allocator.alignment (length value)
  IsAllowed (gets key loc now) = IsTarget loc × IsOutside start loc
  IsAllowed (deletes key) = Unit
  IsAllowed goes_on = Unit

  -- What a transfer that is still to come relies on.
  pub record CanSend (pool : MemoryPool) (e : CacheEntry) (loc : ValueLocation) : Type 0 where
    pub target : IsTarget loc
    pub outside : IsOutside start loc
    pub bound : e.offset + length e.value ≤ pool.allocator.offset

  abbrev pub Sends : MemoryPool → Point → Type 0
  Sends pool (sending e loc) = CanSend pool e loc
  Sends pool _ = Unit

  pub Sends-Grows : (a b : MemoryPool) → Grows a b → (p : Point) → Sends a p → Sends b p
  Sends-Grows a b f idle c = tt
  Sends-Grows a b f (storing key e) c = tt
  Sends-Grows a b f (freeing e) c = tt
  Sends-Grows a b f (expiring key) c = tt
  Sends-Grows a b f (sending e loc) c = record {
    target = c.target;
    outside = c.outside;
    bound = omega (arith, c.bound, f.offset);
  }

  Sends-then_store :
      (pool : MemoryPool) (key : Key) (r : Outcome Message CacheEntry)
      → Sends pool (then_store key r)
  Sends-then_store pool key (ok e) = tt
  Sends-then_store pool key (err m) = tt
  Sends-then_store pool key panic = tt

  pub record IsSafe (s : System D) : Type 0 where
    pub serving : IsServing (mirror s.host (flights s.tasks))
    pub grown : Grows start.memory_pool s.host.memory_pool
    pub sent : (i : ℕ) → Sends s.host.memory_pool (s.tasks i)

  module _ (s : System D) (safe : IsSafe s) (i : ℕ) where
    abbrev pub g : Side
    g = flights s.tasks

    -- A step of the task.
    pub record IsActed (r : Point × Host D) : Type 0 where
      pub serving : IsServing (mirror r.1 (assign (of_task i) (owned r.0) g))
      pub grown : Grows s.host.memory_pool r.1.memory_pool
      pub sent : Sends r.1.memory_pool r.0

    stays :
        (p : Point) → owned (s.tasks i) ≡ owned p → Sends s.host.memory_pool p → IsActed (p, s.host)
    stays p same can = record {
      serving = rw (assign_held (of_task i) (owned p) g same) safe.serving;
      grown = same-Grows;
      sent = can;
    }

    begin_get-IsActed :
        (key : Key) (loc : ValueLocation) (now : ℕ)
        → s.tasks i ≡ idle
        → IsTarget loc
        → IsOutside start loc
        → IsActed (begin_get D key loc now s.host)
    unfolding begin_get
    begin_get-IsActed key loc now at target outside = elim (Option-cases (D.get key s.host.cache)) [
      | inl missing ↦ rw (missing, begin_get) (stays idle (ap owned at) tt)
      | inr (e, found) ↦
          rw (found, begin_get)
            (elim (Bool-cases (is_expired e now)) [
              | inl dead ↦ rw dead (stays (expiring key) (ap owned at) tt)
              | inr live ↦ rw live (
                  stays (sending e loc) (ap owned at) (record {
                    target = target;
                    outside = outside;
                    bound = safe.serving.consistent.bound (of_map key) e found;
                  }))
            ])
    ]

    begin_delete-IsActed : (key : Key) → s.tasks i ≡ idle → IsActed (begin_delete D key s.host)
    unfolding begin_delete
    begin_delete-IsActed key at = elim (Option-cases (D.get key s.host.cache)) [
      | inl missing ↦
          rw (D.remove_old key s.host.cache, missing, begin_delete)
            (record {
              serving =
                  rw (assign_held (of_task i) none g (ap owned at))
                    (expire-IsServing D s.host g i safe.serving key);
              grown = same-Grows;
              sent = tt;
            })
      | inr (e, found) ↦
          rw (D.remove_old key s.host.cache, found, begin_delete)
            (record {
              serving = begin_delete-IsServing D s.host g i safe.serving key e found;
              grown = same-Grows;
              sent = tt;
            })
    ]

    begin_put-IsActed :
        (key : Key) (value : List ℕ) (ttl_seconds now : ℕ)
        → s.tasks i ≡ idle
        → length value ≤ max_len
        → Multiple start.memory_pool.allocator.alignment (length value)
        → IsActed (begin_put D key value ttl_seconds now s.host)
    begin_put-IsActed key value ttl_seconds now at small units = record {
      serving =
          begin_put-IsServing D g i key (ap owned at) value ttl_seconds now s.host safe.serving
            small (rw safe.grown.alignment units);
      grown =
          begin_put-Grows D key value ttl_seconds now s.host g safe.serving small
            (rw safe.grown.alignment units);
      sent =
          unfold begin_put in
          Sends-then_store (begin_put D key value ttl_seconds now s.host).1.memory_pool key
            (write_value D value ttl_seconds now s.host).0;
    }

    go_on-IsActed : (p : Point) → s.tasks i ≡ p → IsActed (idle, go_on D p s.host)
    unfolding go_on
    go_on-IsActed idle at = stays idle (ap owned at) tt
    go_on-IsActed (storing key e) at = record {
      serving = store_entry-IsServing D s.host g i safe.serving key e (ap owned at);
      grown = store_entry-Grows D key e s.host;
      sent = tt;
    }
    go_on-IsActed (freeing e) at = record {
      serving = release-IsServing D s.host g i safe.serving e (ap owned at);
      grown = release-Grows D e s.host;
      sent = tt;
    }
    go_on-IsActed (expiring key) at = record {
      serving =
          rw (assign_held (of_task i) none g (ap owned at))
            (expire-IsServing D s.host g i safe.serving key);
      grown = same-Grows;
      sent = tt;
    }
    go_on-IsActed (sending e loc) at = record {
      serving =
          rw (assign_held (of_task i) none g (ap owned at))
            (transfer-IsServing D s.host g i safe.serving e loc can.bound can.target here);
      grown = transfer-Grows D e loc s.host g safe.serving can.bound can.target;
      sent = tt;
    }
      where
        can : CanSend s.host.memory_pool e loc
        can = subst (λ x. Sends s.host.memory_pool x) at (safe.sent i)

        here : IsOutside s.host loc
        here = ground (arith, can.outside, safe.grown.buffer, safe.grown.buffer_len)

    pub act-IsActed :
        (event : Event) (p : Point)
        → s.tasks i ≡ p
        → IsAllowed event
        → IsActed (act D event p s.host)
    unfolding act
    act-IsActed (puts key value ttl_seconds now) idle at a =
        begin_put-IsActed key value ttl_seconds now at a.0 a.1
    act-IsActed (gets key loc now) idle at a = begin_get-IsActed key loc now at a.0 a.1
    act-IsActed (deletes key) idle at a = begin_delete-IsActed key at
    act-IsActed goes_on p at a = go_on-IsActed p at
    act-IsActed event p at a =
        stays p (ap owned at) (subst (λ x. Sends s.host.memory_pool x) at (safe.sent i))
