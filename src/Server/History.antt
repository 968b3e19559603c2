-- ===== src/Server/History.antt =====
-- Histories of calls on the server, one after another.
pub mod Promise
pub mod Race
use kv_rdma_poc.Shared.{
  ℕ, ◌+◌, ◌*◌, ◌^◌, ◌≤◌, ◌<◌, ◌≡◌, ◌≢◌, refl, sym, ap, ◌∙◌, ◌⊎◌, inl, inr, List, Option, none, some,
  arith, length, ok, err, true, false, Option-cases, Bool-cases,
}
use kv_rdma_poc.Message.{pool_exhausted}
use kv_rdma_poc.Protocol.{ValueLocation, CacheEntry, is_expired}
use kv_rdma_poc.Memory.Bytes.{load}
use kv_rdma_poc.Memory.Align.{Multiple}
use kv_rdma_poc.Memory.Allocator.{BumpAllocator}
use kv_rdma_poc.Memory.Allocator.Conserve.{max_len}
use kv_rdma_poc.Memory.Allocator.Granular.{granular-CanServe}
use kv_rdma_poc.Server.EntryMap.{DashMap, Key}
use kv_rdma_poc.Server.{Host, set_cache, put_value, get_and_transfer, delete_value}
use kv_rdma_poc.Server.Put.{entry_at, after_put, put_value_cases}
use kv_rdma_poc.Server.Stored.{Key-discrete}
use kv_rdma_poc.Server.Get.{
  IsTarget, target, get_arrives, get_and_transfer_found, get_missing, get_expired,
}
use kv_rdma_poc.Server.Delete.{delete_value_lem, after_delete}
use kv_rdma_poc.Server.Serving.{
  IsServing, IsOutside, put_value-IsServing, get_and_transfer-IsServing, delete_value-IsServing,
}

pub data Call : Type 0 where
  puts : Key → (value : List ℕ) (ttl_seconds now : ℕ) → Call
  gets : Key → ValueLocation → (now : ℕ) → Call
  deletes : Key → Call

-- An entry that was created at `created` has not expired at `now`.
abbrev pub IsLive : (ttl_seconds created now : ℕ) → Type 0
IsLive ttl_seconds created now = (ttl_seconds ≡ 0) ⊎ (now < created + ttl_seconds * 10 ^ 9)

-- The calls that leave an entry of `key` in the map.
abbrev pub Keeps : Key → (ttl_seconds created : ℕ) → Call → Type 0
Keeps key ttl_seconds created (puts j value t now) = j ≢ key
Keeps key ttl_seconds created (gets j loc now) = (j ≢ key) ⊎ IsLive ttl_seconds created now
Keeps key ttl_seconds created (deletes j) = j ≢ key

module _ (D : DashMap) where
  abbrev pub perform : Call → Host D → Host D
  perform (puts key value ttl_seconds now) h = (put_value D key value ttl_seconds now h).1
  perform (gets key loc now) h = (get_and_transfer D key loc now h).1
  perform (deletes key) h = (delete_value D key h).1

  -- Values are whole pages of at most `max_len` bytes, and the clients' buffers have an address and lie
  -- outside the pool.
  abbrev pub IsAllowed : Host D → Call → Type 0
  IsAllowed h (puts key value ttl_seconds now) =
      (length value ≤ max_len) × Multiple h.memory_pool.allocator.alignment (length value)
  IsAllowed h (gets key loc now) = IsTarget loc × IsOutside h loc
  IsAllowed h (deletes key) = Unit

  -- A run of allowed calls that are all in `P`.
  pub data Trace (P : Call → Type 0) (h : Host D) : Host D → Type 0 where
    stays : {h' : Host D} → h' ≡ h → Trace P h h'
    calls :
        {h' h'' : Host D} (c : Call)
        → Trace P h h'
        → P c
        → IsAllowed h' c
        → h'' ≡ perform c h'
        → Trace P h h''

  pub perform-IsServing :
      (c : Call) (h : Host D) → IsServing h → IsAllowed h c → IsServing (perform c h)
  perform-IsServing (puts key value ttl_seconds now) h s (small, units) =
      put_value-IsServing D key value ttl_seconds now h s small units
  perform-IsServing (gets key loc now) h s (l, outside) =
      get_and_transfer-IsServing D key loc now h s l outside
  perform-IsServing (deletes key) h s a = delete_value-IsServing D key h s

  -- From a serving host, any run of allowed calls ends in a serving host.
  pub Trace-IsServing :
      {P : Call → Type 0} {h h' : Host D} → IsServing h → Trace P h h' → IsServing h'
  Trace-IsServing s (stays e) = rw e s
  Trace-IsServing s (calls {h'} c r p a e) = rw e (perform-IsServing c h' (Trace-IsServing s r) a)

  module _ (key : Key) (e : CacheEntry) where
    put_keeps :
        (j : Key) (value : List ℕ) (ttl_seconds now : ℕ) (h : Host D)
        → IsServing h
        → IsAllowed h (puts j value ttl_seconds now)
        → j ≢ key
        → D.get key h.cache ≡ some e
        → D.get key (put_value D j value ttl_seconds now h).1.cache ≡ some e
    put_keeps j value ttl_seconds now h s (small, units) other found =
        elim (put_value_cases D j value ttl_seconds now h s.consistent.registered small (
          granular-CanServe (length value) h.memory_pool.allocator
            s.consistent.registered.well_formed small units s.free_units)) [
              | inl (refused, _, _) ↦ rw refused found
              | inr (offset, b, stored, _, _) ↦ rw stored (
                  unfold after_put in
                  D.get-insert_ne j key (entry_at D j value ttl_seconds now h offset) h.cache other
                  ∙ found)
            ]

    delete_keeps :
        (j : Key) (h : Host D)
        → j ≢ key
        → D.get key h.cache ≡ some e
        → D.get key (delete_value D j h).1.cache ≡ some e
    delete_keeps j h other found =
        rw (delete_value_lem D j h)
          (unfold after_delete in D.get-remove_ne j key h.cache other ∙ found)

    get_keeps :
        (j : Key) (loc : ValueLocation) (now : ℕ) (h : Host D)
        → IsServing h
        → IsTarget loc
        → (j ≢ key) ⊎ IsLive e.ttl_seconds e.created_at now
        → D.get key h.cache ≡ some e
        → D.get key (get_and_transfer D j loc now h).1.cache ≡ some e
    get_keeps j loc now h s l kept found = elim (Option-cases (D.get j h.cache)) [
      | inl missing ↦ rw (get_missing D j loc now h missing) found
      | inr (f, found_j) ↦ elim (Bool-cases (is_expired f now)) [
        | inl dead ↦
            rw (get_expired D j loc now h f found_j dead)
              (D.get-remove_ne j key h.cache (other kept f found_j dead) ∙ found)
        | inr here ↦
            rw (get_and_transfer_found D j loc now h f s.consistent s.delivers l found_j here) found
      ]
    ]
      where
        not_dead : IsLive e.ttl_seconds e.created_at now → is_expired e now ≡ true → ⊥
        not_dead live dead = unfold is_expired in ground arith

        other :
            (j ≢ key) ⊎ IsLive e.ttl_seconds e.created_at now
            → (f : CacheEntry) → D.get j h.cache ≡ some f
            → is_expired f now ≡ true
            → j ≢ key
        other (inl ne) f found_j dead = ne
        other (inr live) f found_j dead =
            λ same. not_dead live (ap (λ x. is_expired x now) (eq same) ∙ dead)
          where
            eq : j ≡ key → e ≡ f
            eq same = cc

    perform-Keeps :
        (c : Call) (h : Host D)
        → IsServing h
        → IsAllowed h c
        → Keeps key e.ttl_seconds e.created_at c
        → D.get key h.cache ≡ some e
        → D.get key (perform c h).cache ≡ some e
    perform-Keeps (puts j value ttl_seconds now) h s a other found =
        put_keeps j value ttl_seconds now h s a other found
    perform-Keeps (deletes j) h s a other found = delete_keeps j h other found
    perform-Keeps (gets j loc now) h s (l, outside) kept found =
        get_keeps j loc now h s l kept found

    pub run-Keeps :
        {h h' : Host D}
        → IsServing h
        → Trace (Keeps key e.ttl_seconds e.created_at) h h'
        → D.get key h.cache ≡ some e
        → D.get key h'.cache ≡ some e
    run-Keeps s (stays eq) found = rw eq found
    run-Keeps s (calls {h'} c r p a eq) found =
        rw eq (perform-Keeps c h' (Trace-IsServing s r) a p (run-Keeps s r found))
