-- ===== src/Bench/Phases/Local/Written.antt =====
-- `write_phase` of src/bin/bench.rs: every key gets the same value.
use kv_rdma_poc.Shared.{
  ℕ, ◌≤◌, ◌≡◌, refl, sym, subst, ap, ◌∙◌, ◌⊎◌, inl, inr, List, [], ◌∷◌, some, arith, length, All,
  Outcome, ok, err,
}
use kv_rdma_poc.Message.{Message, pool_exhausted, put_failed}
use kv_rdma_poc.Protocol.{CacheEntry}
use kv_rdma_poc.Memory.Align.{Multiple}
use kv_rdma_poc.Memory.Allocator.{BumpAllocator}
use kv_rdma_poc.Memory.Pool.{MemoryPool}
use kv_rdma_poc.Memory.Allocator.Conserve.{max_len}
use kv_rdma_poc.Memory.Allocator.Granular.{granular-CanServe}
use kv_rdma_poc.Server.EntryMap.{DashMap, Key}
use kv_rdma_poc.Server.{KvCacheServer, Host, put_value}
use kv_rdma_poc.Server.Put.{entry_at, after_put, put_value_cases}
use kv_rdma_poc.Server.Stored.{Key-discrete}
use kv_rdma_poc.Server.Serving.{IsServing, put_value-IsServing}
use kv_rdma_poc.Client
use kv_rdma_poc.Client.{Process, max_inline_size}
use kv_rdma_poc.Client.Put.{put_local, put_outcome}
use kv_rdma_poc.Client.Get.Local.{host}
use kv_rdma_poc.Bench.Phases.{put_all}
use kv_rdma_poc.Bench.Phases.Local.{IsLocal}

module _ (D : DashMap) (now : ℕ) (value : List ℕ) (ttl : ℕ) where
  -- The server has an entry of the key with the value, created now.
  abbrev pub Holds : D.Map → Key → Type 0
  Holds m key =
      (e : CacheEntry) × (D.get key m ≡ some e)
      × (e.value ≡ value)
      × (e.ttl_seconds ≡ ttl)
      × (e.created_at ≡ now)

  -- The host serves, and the value is whole pages of its pool.
  abbrev pub CanTake : Process (KvCacheServer D) → Type 0
  CanTake p =
      IsLocal D now p.client
      × IsServing (host D p.remote p.memory)
      × Multiple p.remote.memory_pool.allocator.alignment (length value)

  -- Of the pool, only the allocator changes.
  abbrev pub SamePool : KvCacheServer D → KvCacheServer D → Type 0
  SamePool r r' = r'.memory_pool ≡ record r.memory_pool { allocator = r'.memory_pool.allocator }

  -- From `p` to `p'` the keys have got the value.
  pub record Writes (keys : List Key) (p p' : Process (KvCacheServer D)) : Type 0 where
    pub can_take : CanTake p'
    pub client : p'.client ≡ p.client
    pub pool : SamePool p.remote p'.remote
    pub kept : (k : Key) → Holds p.remote.cache k → Holds p'.remote.cache k
    pub written : All (Holds p'.remote.cache) keys

  insert-Holds :
      (key k : Key) (e : CacheEntry) (m : D.Map)
      → e.value ≡ value
      → e.ttl_seconds ≡ ttl
      → e.created_at ≡ now
      → Holds m k
      → Holds (D.insert key e m).1 k
  insert-Holds key k e m v t c (old, found, v', t', c') = elim (Key-discrete key k) [
    | yes same ↦ (e, rw (sym same) (D.get-insert_self key e m), v, t, c)
    | no other ↦ (old, D.get-insert_ne key k e m other ∙ found, v', t', c')
  ]

  module _ (key : Key) (p : Process (KvCacheServer D)) where
    abbrev pub served : Host D
    served = host D p.remote p.memory

    unfoldable pub after : ℕ → BumpAllocator → Process (KvCacheServer D)
    after o b = record p {
      remote = (after_put D key value ttl now served o b).server;
      memory = (after_put D key value ttl now served o b).memory;
    }

    pub after-Writes :
        (o : ℕ) (b : BumpAllocator)
        → length value ≤ max_len
        → CanTake p
        → put_value D key value ttl now served ≡ (ok tt, after_put D key value ttl now served o b)
        → b.alignment ≡ p.remote.memory_pool.allocator.alignment
        → Writes (key ∷ []) p (after o b)
    unfolding after after_put
    after-Writes o b small (local, s, units) done same = record {
      can_take = (
        local,
        (rw done at (put_value-IsServing D key value ttl now served s small units)),
        subst (λ a. Multiple a (length value)) (sym same) units,
      );
      client = refl;
      pool = refl;
      kept = λ k.
          insert-Holds key k (entry_at D key value ttl now served o) p.remote.cache refl refl refl;
      written = (
        (
          entry_at D key value ttl now served o,
          D.get-insert_self key _ p.remote.cache,
          refl,
          refl,
          refl,
        ),
        tt,
      );
    }

    -- A put is refused for want of memory, and then nothing has changed, or the key has the value.
    put-Writes :
        length value ≤ max_inline_size
        → CanTake p
        → (Client.put key value ttl p ≡ (err (put_failed pool_exhausted), p))
          ⊎ ((p' : Process (KvCacheServer D)) × (Client.put key value ttl p ≡ (ok tt, p'))
              × Writes (key ∷ []) p p')
    unfolding after
    put-Writes small (local, s, units) =
        elim (put_value_cases D key value ttl now served s.consistent.registered (omega arith) (
          granular-CanServe (length value) served.memory_pool.allocator
            s.consistent.registered.well_formed (omega arith) units s.free_units)) [
              | inl (refused, _, _) ↦ inl (
                  put_local D now key value ttl p local small
                  ∙ ap (put_outcome D now key value ttl p) refused)
              | inr (o, b, done, conserving, _) ↦ inr (
                after o b,
                put_local D now key value ttl p local small
                    ∙ ap (put_outcome D now key value ttl p) done,
                after-Writes o b (omega arith) (local, s, units) done conserving.same_alignment,
              )
            ]

  SamePool-trans : (r r' r'' : KvCacheServer D) → SamePool r r' → SamePool r' r'' → SamePool r r''
  SamePool-trans r r' r'' a b =
      b ∙ ap (λ (m : MemoryPool). record m { allocator = r''.memory_pool.allocator }) a

  pub Writes-cons :
      (key : Key) (keys : List Key) (p p' p'' : Process (KvCacheServer D))
      → Writes (key ∷ []) p p'
      → Writes keys p' p''
      → Writes (key ∷ keys) p p''
  Writes-cons key keys p p' p'' a b = record {
    can_take = b.can_take;
    client = b.client ∙ a.client;
    pool = SamePool-trans p.remote p'.remote p''.remote a.pool b.pool;
    kept = λ k h. b.kept k (a.kept k h);
    written = (b.kept key a.written.0, b.written);
  }

  -- Every key has got the value, or a put was refused for want of memory.
  abbrev pub WritesOrFails :
      List Key
      → Outcome Message (Unit {0}) × Process (KvCacheServer D)
      → Process (KvCacheServer D)
      → Type 0
  WritesOrFails keys r p =
      ((p' : Process (KvCacheServer D)) × (r ≡ (ok tt, p')) × Writes keys p p')
      ⊎ ((p' : Process (KvCacheServer D)) × (r ≡ (err (put_failed pool_exhausted), p'))
          × Writes [] p p')

  pub put_all_lem :
      (keys : List Key) (p : Process (KvCacheServer D))
      → length value ≤ max_inline_size
      → CanTake p
      → WritesOrFails keys (put_all value ttl keys p) p
  unfolding put_all
  put_all_lem [] p small can = inl (
    p,
    refl,
    record { can_take = can; client = refl; pool = refl; kept = λ k h. h; written = tt },
  )
  put_all_lem (key ∷ keys) p small can =
      first (put-Writes key p small can) (λ p' a. put_all_lem keys p' small a)
    where
      next :
          (p' : Process (KvCacheServer D))
          → Client.put key value ttl p ≡ (ok tt, p')
          → Writes (key ∷ []) p p'
          → WritesOrFails keys (put_all value ttl keys p') p'
          → WritesOrFails (key ∷ keys) (put_all value ttl (key ∷ keys) p) p
      next p' done one (inl (p'', rest, w)) =
          inl (p'', rw done rest, Writes-cons key keys p p' p'' one w)
      next p' done one (inr (p'', rest, w)) = inr (
        p'',
        rw done rest,
        record {
          can_take = w.can_take;
          client = w.client ∙ one.client;
          pool = SamePool-trans p.remote p'.remote p''.remote one.pool w.pool;
          kept = λ k h. w.kept k (one.kept k h);
          written = tt;
        },
      )

      first :
          (Client.put key value ttl p ≡ (err (put_failed pool_exhausted), p))
            ⊎ ((p' : Process (KvCacheServer D)) × (Client.put key value ttl p ≡ (ok tt, p'))
                × Writes (key ∷ []) p p')
          → ((p' : Process (KvCacheServer D))
              → CanTake p'
              → WritesOrFails keys (put_all value ttl keys p') p')
          → WritesOrFails (key ∷ keys) (put_all value ttl (key ∷ keys) p) p
      first (inl refused) rest = inr (
        p,
        rw refused refl,
        record { can_take = can; client = refl; pool = refl; kept = λ k h. h; written = tt },
      )
      first (inr (p', done, one)) rest = next p' done one (rest p' one.can_take)
