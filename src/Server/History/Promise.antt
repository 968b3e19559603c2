-- ===== src/Server/History/Promise.antt =====
-- What a server keeps to over any history of calls.
use kv_rdma_poc.Shared.{
  ℕ, ◌+◌, ◌≤◌, ◌<◌, ◌≡◌, subst, inl, inr, List, Option, some, arith, length, ok, err, true, false,
  Outcome,
}
use kv_rdma_poc.Shared.Word.{word}
use kv_rdma_poc.Message.{Message, pool_exhausted}
use kv_rdma_poc.Protocol.{ValueLocation, is_expired}
use kv_rdma_poc.Memory.Bytes.{Memory, load}
use kv_rdma_poc.Memory.Align.{Multiple}
use kv_rdma_poc.Memory.Allocator.{BumpAllocator}
use kv_rdma_poc.Memory.Allocator.Conserve.{max_len}
use kv_rdma_poc.Memory.Allocator.Granular.{granular-CanServe}
use kv_rdma_poc.Transport.{TransportConfig, RdmaTransportTrait}
use kv_rdma_poc.Server.EntryMap.{DashMap, Key}
use kv_rdma_poc.Server.{ServerConfig, KvCacheServer, Host, new, put_value, get_and_transfer}
use kv_rdma_poc.Server.Consistent.{IsConsistent}
use kv_rdma_poc.Server.Put.{entry_at, after_put, put_value_cases}
use kv_rdma_poc.Server.Get.{IsTarget, target, get_arrives}
use kv_rdma_poc.Server.Fresh.{fresh, new-fresh, fresh-IsServing}
use kv_rdma_poc.Server.Serving.{IsServing, put_value-IsServing}
use kv_rdma_poc.Server.History.{Call, IsLive, Keeps, Trace, Trace-IsServing, run-Keeps}

-- A server that new makes with the mock transport, a pool that leaves a page to spare below
-- max_len, and a buffer that is not null and does not wrap round, is consistent after any run of
-- calls whose values are whole pages of at most max_len bytes and whose targets are not null, do
-- not wrap round and lie outside the pool.
pub new_run-IsConsistent :
    (D : DashMap) (fabric : Option (TransportConfig → Outcome Message RdmaTransportTrait))
    (config : ServerConfig) (buffer : ℕ) (memory : Memory) (server : KvCacheServer D)
    (P : Call → Type 0) (h : Host D)
    → config.transport.use_mock ≡ true
    → 0 < buffer
    → config.memory_pool_size + 4096 ≤ max_len
    → buffer + config.memory_pool_size < word
    → new D fabric config buffer ≡ ok server
    → Trace D P (record { server = server; memory = memory }) h
    → IsConsistent h
new_run-IsConsistent D fabric config buffer memory server P h mock not_null size addressed made
      run =
    IsServing.consistent (Trace-IsServing D serving run)
  where
    same : fresh D config buffer ≡ server
    same = cc (new-fresh D fabric config buffer memory mock not_null size addressed, made)

    serving : IsServing {D = D} (record { server = server; memory = memory })
    serving =
        subst (λ (x : KvCacheServer D). IsServing {D = D} (record { server = x; memory = memory }))
          same (fresh-IsServing D fabric config buffer memory mock not_null size addressed)

-- On a serving host, a value of whole pages and of at most max_len bytes that a put has stored is
-- what a get of its key delivers to a target that is not null and does not wrap round, after any
-- run of calls whose values are whole pages of at most max_len bytes and whose targets are not
-- null, do not wrap round and lie outside the pool, that neither put nor delete the key and of
-- which no get of the key comes after its expiry, as long as the last get does not come after its
-- expiry either.
pub get-put_run :
    (D : DashMap) (key : Key) (value : List ℕ) (ttl_seconds now later : ℕ) (loc : ValueLocation)
    (h h' : Host D)
    → IsServing h
    → length value ≤ max_len
    → Multiple h.memory_pool.allocator.alignment (length value)
    → (put_value D key value ttl_seconds now h).0 ≡ ok tt
    → Trace D (Keeps key ttl_seconds now) (put_value D key value ttl_seconds now h).1 h'
    → IsTarget loc
    → IsLive ttl_seconds now later
    → let r = get_and_transfer D key loc later h' in
      (r.0 ≡ ok (length value)) × (load r.1.memory (target loc) (length value) ≡ value)
get-put_run D key value ttl_seconds now later loc h h' s small units done run l live =
    elim (put_value_cases D key value ttl_seconds now h s.consistent.registered small (
      granular-CanServe (length value) h.memory_pool.allocator s.consistent.registered.well_formed
        small units s.free_units)) [
          | inl (refused, _, _) ↦ absurd (ok_or_refused refused)
          | inr (offset, b, stored, _, _) ↦ delivered offset (
              get_arrives D key loc later h' (entry_at D key value ttl_seconds now h offset) 0 0
                serving.consistent serving.delivers l
                (run-Keeps D key (entry_at D key value ttl_seconds now h offset) start run
                  (held offset b stored))
                (not_expired offset) (inl (omega arith)))
        ]
  where
    ok_or_refused : put_value D key value ttl_seconds now h ≡ (err pool_exhausted, h) → ⊥
    ok_or_refused refused = cc

    start : IsServing (put_value D key value ttl_seconds now h).1
    start = put_value-IsServing D key value ttl_seconds now h s small units

    serving : IsServing h'
    serving = Trace-IsServing D start run

    held :
        (offset : ℕ) (b : BumpAllocator)
        → put_value D key value ttl_seconds now h
          ≡ (ok tt, after_put D key value ttl_seconds now h offset b)
        → D.get key (put_value D key value ttl_seconds now h).1.cache
          ≡ some (entry_at D key value ttl_seconds now h offset)
    held offset b stored = rw stored (
        unfold after_put in
        D.get-insert_self key (entry_at D key value ttl_seconds now h offset) h.cache)

    not_expired :
        (offset : ℕ) → is_expired (entry_at D key value ttl_seconds now h offset) later ≡ false
    not_expired offset = unfold is_expired in ground arith

    delivered :
        (offset : ℕ)
        → let r = get_and_transfer D key loc later h' in
          (r.0 ≡ ok (length value))
            × (load r.1.memory (target loc) (length value) ≡ value)
            × (load r.1.memory 0 0 ≡ load h'.memory 0 0)
            × (r.1.server ≡ h'.server)
          → (r.0 ≡ ok (length value)) × (load r.1.memory (target loc) (length value) ≡ value)
    delivered offset (length_ok, bytes_ok, _, _) = (length_ok, bytes_ok)
