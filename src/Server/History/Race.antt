-- ===== src/Server/History/Race.antt =====
-- `get_and_transfer` of src/server.rs drops its reference to the entry before it sends the bytes, so
-- other calls can run in between: `transfer` is what is left of the get.
use kv_rdma_poc.Shared.{ℕ, ◌+◌, ◌≤◌, ◌≡◌, refl, ap, ◌∙◌, List, some, arith, length, ok}
use kv_rdma_poc.Protocol.{ValueLocation, CacheEntry}
use kv_rdma_poc.Memory.Bytes.{load, load-copy}
use kv_rdma_poc.Memory.Align.{Multiple}
use kv_rdma_poc.Memory.Allocator.{BumpAllocator}
use kv_rdma_poc.Memory.Allocator.Conserve.{max_len}
use kv_rdma_poc.Server.EntryMap.{DashMap, Key}
use kv_rdma_poc.Server.{Host, put_value, transfer, delete_value}
use kv_rdma_poc.Server.Put.{entry_at, after_put}
use kv_rdma_poc.Server.Get.{IsTarget, target, transfer_copies}
use kv_rdma_poc.Server.Serving.{IsServing, delete_value-IsServing, put_value-IsServing}
use kv_rdma_poc.Server.History.{Keeps, Trace, Trace-IsServing, run-Keeps}

-- On a serving host, what is left of a get that has found an entry delivers the value of the entry
-- to a target that is not null and does not wrap round, after any run of calls whose values are
-- whole pages of at most max_len bytes and whose targets are not null, do not wrap round and lie
-- outside the pool, as long as none of them put or deleted the key and no get of the key came
-- after its expiry.
pub transfer_after_run :
    (D : DashMap) (key : Key) (loc : ValueLocation) (e : CacheEntry) (h h' : Host D)
    → IsServing h
    → D.get key h.cache ≡ some e
    → Trace D (Keeps key e.ttl_seconds e.created_at) h h'
    → IsTarget loc
    → let r = transfer D e loc h' in
      (r.0 ≡ ok (length e.value)) × (load r.1.memory (target loc) (length e.value) ≡ e.value)
transfer_after_run D key loc e h h' s found run l =
    rw
      (transfer_copies D key loc 0 h' e t.consistent.registered t.delivers l
        (t.consistent.bound key e kept))
      (
        refl,
        load-copy h'.memory (h'.memory_pool.buffer + e.offset) (target loc) (length e.value)
            ∙ t.consistent.bytes key e kept,
      )
  where
    t : IsServing h'
    t = Trace-IsServing D s run

    kept : D.get key h'.cache ≡ some e
    kept = run-Keeps D key e s run found

-- On a serving host, where a get has found an entry, and then its key is deleted and a value of
-- whole pages, of at most max_len bytes and of the same length is put for a key and is given the
-- block of the entry, what is left of the get, with a target that is not null and does not wrap
-- round, reports success and delivers that value.
pub transfer_after_reuse :
    (D : DashMap) (key j : Key) (value : List ℕ) (ttl_seconds now : ℕ) (loc : ValueLocation)
    (e : CacheEntry) (h : Host D) (b : BumpAllocator)
    → IsServing h
    → length value ≤ max_len
    → Multiple (delete_value D key h).1.memory_pool.allocator.alignment (length value)
    → length e.value ≡ length value
    → put_value D j value ttl_seconds now (delete_value D key h).1
      ≡ (ok tt, after_put D j value ttl_seconds now (delete_value D key h).1 e.offset b)
    → IsTarget loc
    → let r = transfer D e loc (put_value D j value ttl_seconds now (delete_value D key h).1).1 in
      (r.0 ≡ ok (length e.value)) × (load r.1.memory (target loc) (length e.value) ≡ value)
transfer_after_reuse D key j value ttl_seconds now loc e h b s small units same stored l =
    rw (transfer_copies D key loc 0 after e t.consistent.registered t.delivers l bound) (
      refl,
      load-copy after.memory (after.memory_pool.buffer + e.offset) (target loc) (length e.value)
          ∙ ap (λ (n : ℕ). load after.memory (after.memory_pool.buffer + e.offset) n) same
          ∙ t.consistent.bytes j new cached,
    )
  where
    after : Host D
    after = (put_value D j value ttl_seconds now (delete_value D key h).1).1

    t : IsServing after
    t =
        put_value-IsServing D j value ttl_seconds now (delete_value D key h).1
          (delete_value-IsServing D key h s) small units

    new : CacheEntry
    new = entry_at D j value ttl_seconds now (delete_value D key h).1 e.offset

    cached :
        D.get j (put_value D j value ttl_seconds now (delete_value D key h).1).1.cache ≡ some new
    cached = rw stored (unfold after_put in D.get-insert_self j new (delete_value D key h).1.cache)

    bound : e.offset + length e.value ≤ after.memory_pool.allocator.offset
    bound = omega (arith, same, t.consistent.bound j new cached)
