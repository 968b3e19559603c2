-- ===== src/Server/Threads/Grows.antt =====
-- What a step does to the pool: it stays where it is, and the bump offset never falls.
use kv_rdma_poc.Shared.{
  ℕ, ◌+◌, ◌≤◌, ◌≡◌, refl, subst, ◌∙◌, inl, inr, List, [], arith, length, Outcome, ok, err, panic,
  and_then,
}
use kv_rdma_poc.Message.{Message}
use kv_rdma_poc.Protocol.{ValueLocation, CacheEntry}
use kv_rdma_poc.Memory.Align.{Multiple}
use kv_rdma_poc.Memory.Allocator.{deallocate}
use kv_rdma_poc.Memory.Allocator.Conserve.{max_len}
use kv_rdma_poc.Memory.Allocator.Granular.{granular-CanServe}
use kv_rdma_poc.Memory.Pool
use kv_rdma_poc.Memory.Pool.{MemoryPool}
use kv_rdma_poc.Server.EntryMap.{DashMap, Key}
use kv_rdma_poc.Server.{Host, store_entry, release, transfer, put_value}
use kv_rdma_poc.Server.Put.{after_put, freed, put_value_cases, store_entry_lem}
use kv_rdma_poc.Server.Get.{IsTarget, transfer_copies}
use kv_rdma_poc.Server.Serving.{IsServing}
use kv_rdma_poc.Server.Threads.{write_value, begin_put}
use kv_rdma_poc.Server.Threads.Overlay.{Side, overlay, mirror}
use kv_rdma_poc.Server.Threads.Moves.{mirrored, put_value-mirrored}

-- A pool whose allocator has gone on.
pub record Grows (a b : MemoryPool) : Type 0 where
  pub buffer : b.buffer ≡ a.buffer
  pub buffer_len : b.buffer_len ≡ a.buffer_len
  pub alignment : b.allocator.alignment ≡ a.allocator.alignment
  pub offset : a.allocator.offset ≤ b.allocator.offset

pub same-Grows : {a : MemoryPool} → Grows a a
same-Grows = record { buffer = refl; buffer_len = refl; alignment = refl; offset = omega arith }

pub Grows-trans : {a b c : MemoryPool} → Grows a b → Grows b c → Grows a c
Grows-trans f g = record {
  buffer = g.buffer ∙ f.buffer;
  buffer_len = g.buffer_len ∙ f.buffer_len;
  alignment = g.alignment ∙ f.alignment;
  offset = omega (arith, f.offset, g.offset);
}

module _ (D : DashMap) where
  pub store_entry-Grows :
      (key : Key) (e : CacheEntry) (h : Host D)
      → Grows h.memory_pool (store_entry D key e h).1.memory_pool
  store_entry-Grows key e h =
      rw (store_entry_lem D key e h)
        (record { buffer = refl; buffer_len = refl; alignment = refl; offset = omega arith })

  pub release-Grows :
      (e : CacheEntry) (h : Host D) → Grows h.memory_pool (release D e h).memory_pool
  unfolding release Pool.deallocate deallocate
  release-Grows e h = record {
    buffer = refl;
    buffer_len = refl;
    alignment = refl;
    offset = omega arith;
  }

  put_value-Grows :
      (key : Key) (value : List ℕ) (ttl_seconds now : ℕ) (h : Host D)
      → IsServing h
      → length value ≤ max_len
      → Multiple h.memory_pool.allocator.alignment (length value)
      → Grows h.memory_pool (put_value D key value ttl_seconds now h).1.memory_pool
  unfolding after_put
  put_value-Grows key value ttl_seconds now h s small units =
      elim (put_value_cases D key value ttl_seconds now h s.consistent.registered small (
        granular-CanServe (length value) h.memory_pool.allocator s.consistent.registered.well_formed
          small units s.free_units)) [
            | inl (e, _, _) ↦ rw e same-Grows
            | inr (offset, b, e, c, v) ↦ rw e (record {
              buffer = refl;
              buffer_len = refl;
              alignment = c.same_alignment;
              offset = c.grows;
            })
          ]

module _ (D : DashMap) where
  -- The pool is the same after the first part of a put and after the whole.
  written-Grows :
      (a : MemoryPool) (g : Side) (key : Key) (x : Outcome Message CacheEntry × Host D)
      → Grows a (and_then (mirrored D g x) (store_entry (overlay D) key)).1.memory_pool
      → Grows a x.1.memory_pool
  written-Grows a g key (ok e, h) s = record {
    buffer = grown.buffer;
    buffer_len = grown.buffer_len;
    alignment = grown.alignment;
    offset = grown.offset;
  }
    where
      grown : Grows a (record h.memory_pool {
        allocator = freed ((overlay D).get key (h.cache, g)) h.memory_pool.allocator;
      })
      grown =
          subst (λ x. Grows a (x.1).memory_pool) (store_entry_lem (overlay D) key e (mirror h g)) s
  written-Grows a g key (err m, h) s = s
  written-Grows a g key (panic, h) s = s

  pub begin_put-Grows :
      (key : Key) (value : List ℕ) (ttl_seconds now : ℕ) (h : Host D) (g : Side)
      → IsServing (mirror h g)
      → length value ≤ max_len
      → Multiple h.memory_pool.allocator.alignment (length value)
      → Grows h.memory_pool (begin_put D key value ttl_seconds now h).1.memory_pool
  unfolding begin_put
  begin_put-Grows key value ttl_seconds now h g s small units =
      written-Grows h.memory_pool g key (write_value D value ttl_seconds now h) (
        subst (λ x. Grows h.memory_pool (x.1).memory_pool)
          (put_value-mirrored D g key value ttl_seconds now h)
          (put_value-Grows (overlay D) key value ttl_seconds now (mirror h g) s small units))

  pub transfer-Grows :
      (e : CacheEntry) (loc : ValueLocation) (h : Host D) (g : Side)
      → IsServing (mirror h g)
      → e.offset + length e.value ≤ h.memory_pool.allocator.offset
      → IsTarget loc
      → Grows h.memory_pool (transfer D e loc h).1.memory_pool
  transfer-Grows e loc h g s bound l =
      rw (transfer_copies D [] loc 0 h e s.consistent.registered s.delivers l bound) same-Grows
