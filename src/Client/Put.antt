-- ===== src/Client/Put.antt =====
-- `put` of src/client.rs, with the server in the same process.
use kv_rdma_poc.Shared.{
  ℕ, ◌≤◌, ◌<◌, ◌≡◌, refl, sym, ap, ◌⊎◌, inl, inr, List, none, some, arith, length, ltb, true, false,
  Outcome, ok, err, panic,
}
use kv_rdma_poc.Message.{Message, pool_exhausted, put_failed, value_too_large}
use kv_rdma_poc.Protocol.{is_expired}
use kv_rdma_poc.Memory.Align.{Multiple}
use kv_rdma_poc.Memory.Allocator
use kv_rdma_poc.Memory.Allocator.{BumpAllocator}
use kv_rdma_poc.Memory.Allocator.Granular.{granular-CanServe}
use kv_rdma_poc.Server.EntryMap.{DashMap, Key}
use kv_rdma_poc.Server.{Host, KvCacheServer, put_value}
use kv_rdma_poc.Server.Service
use kv_rdma_poc.Server.Service.{put_reply}
use kv_rdma_poc.Server.Put.{entry_at, after_put, put_value_cases}
use kv_rdma_poc.Server.History.{IsLive}
use kv_rdma_poc.Server.Serving.{IsServing, put_value-IsServing}
use kv_rdma_poc.Client.{
  Process, KvCacheServiceClient, max_value_size, max_inline_size, get_pending, get, put,
}
use kv_rdma_poc.Client.Get.Local.{host, local_stub, IsReceiving, IsApart, get_local}

-- A value of more than 64 megabytes is refused by a connected client, which then sends nothing.
pub put_too_large :
    {R : Type 0} (key value : List ℕ) (ttl_seconds : ℕ) (p : Process R) (s : KvCacheServiceClient R)
    → p.grpc_client ≡ some s
    → max_inline_size < length value
    → put key value ttl_seconds p ≡ (err (value_too_large (length value)), p)
unfolding put
put_too_large key value ttl_seconds p s connected large = rw (connected, put) (rw over refl)
  where
    over : ltb max_inline_size (length value) ≡ true
    over = ground arith

outcome_cases :
    {S : Type 0} (r : Outcome Message (Unit {0}) × S)
    → ((s : S) × (r ≡ (ok tt, s)))
      ⊎ (((e : Message) × (s : S) × (r ≡ (err e, s))) ⊎ ((s : S) × (r ≡ (panic, s))))
outcome_cases (ok tt, s) = inl (s, refl)
outcome_cases (err e, s) = inr (inl (e, s, refl))
outcome_cases (panic, s) = inr (inr (s, refl))

-- The process when the clock of its server has gone on.
abbrev pub reading_at : (D : DashMap) → ℕ → Process (KvCacheServer D) → Process (KvCacheServer D)
reading_at D time p = record p {
  client = record p.client { grpc_client = some (local_stub D time) };
}

module _ (D : DashMap) (now : ℕ) (key : Key) (value : List ℕ) (ttl_seconds : ℕ)
    (p : Process (KvCacheServer D)) where
  abbrev with_host : Host D → Process (KvCacheServer D)
  with_host h = record p { remote = h.server; memory = h.memory }

  -- What the client makes of the outcome at the server.
  abbrev pub put_outcome :
      Outcome Message (Unit {0}) × Host D → Outcome Message (Unit {0}) × Process (KvCacheServer D)
  put_outcome (ok _, h) = (ok tt, with_host h)
  put_outcome (err e, h) = (err (put_failed e), with_host h)
  put_outcome (panic, h) = (panic, with_host h)

  -- A client in the process of the server that is connected to it, with a value of at most 64
  -- megabytes, does to the server what put_value does, and returns its outcome.
  pub put_local :
      p.grpc_client ≡ some (local_stub D now)
      → length value ≤ max_inline_size
      → put key value ttl_seconds p
        ≡ put_outcome (put_value D key value ttl_seconds now (host D p.remote p.memory))
  unfolding put Service.put put_reply
  put_local connected small =
      rw (connected, put)
        (rw fits
          (elim (outcome_cases (put_value D key value ttl_seconds now (host D p.remote p.memory))) [
            | inl (h, done) ↦ rw (done, put_reply) refl
            | inr (inl (e, h, failed)) ↦ rw (failed, put_reply) refl
            | inr (inr (h, stopped)) ↦ rw (stopped, put_reply) refl
          ]))
    where
      fits : ltb max_inline_size (length value) ≡ false
      fits = ground arith

  reading_at-with_host :
      (h : Host D)
      → p.grpc_client ≡ some (local_stub D now)
      → reading_at D now (with_host h) ≡ with_host h
  reading_at-with_host h connected =
      ap
        (λ stub. record p {
          client = record p.client { grpc_client = stub };
          remote = h.server;
          memory = h.memory;
        })
        (sym connected)

  reading_at-put_outcome :
      (x : Outcome Message (Unit {0}) × Host D)
      → p.grpc_client ≡ some (local_stub D now)
      → reading_at D now (put_outcome x).1 ≡ (put_outcome x).1
  reading_at-put_outcome (ok _, h) connected = reading_at-with_host h connected
  reading_at-put_outcome (err e, h) connected = reading_at-with_host h connected
  reading_at-put_outcome (panic, h) connected = reading_at-with_host h connected

  -- The clock of the server has not gone on.
  pub reading_at-put :
      p.grpc_client ≡ some (local_stub D now)
      → length value ≤ max_inline_size
      → reading_at D now (put key value ttl_seconds p).1 ≡ (put key value ttl_seconds p).1
  reading_at-put connected small = rw (put_local connected small) (
      reading_at-put_outcome (put_value D key value ttl_seconds now (host D p.remote p.memory))
        connected)

  -- A connected client in the process of a serving host, whose pool is apart from the host's and
  -- ready to receive, with no request under its next id and a receive buffer given, puts a value
  -- of whole pages and of at most a megabyte; where the server stores the value, the put succeeds,
  -- and a get of the key returns it as long as its time to live has not passed by the clock of the
  -- server, or is zero.
  pub get-put_local :
      (later offset : ℕ) (b : BumpAllocator)
      → p.grpc_client ≡ some (local_stub D now)
      → IsServing (host D p.remote p.memory)
      → length value ≤ max_value_size
      → Multiple p.remote.memory_pool.allocator.alignment (length value)
      → (put_value D key value ttl_seconds now (host D p.remote p.memory)).0 ≡ ok tt
      → IsReceiving p.memory_pool
      → IsApart p.memory_pool p.remote.memory_pool
      → get_pending p.request_counter p.pending ≡ none
      → Allocator.allocate {E = Message} max_value_size p.memory_pool.allocator
        ≡ (ok (some offset), b)
      → IsLive ttl_seconds now later
      → ((put key value ttl_seconds p).0 ≡ ok tt)
        × ((get key (reading_at D later (put key value ttl_seconds p).1)).0 ≡ ok value)
  get-put_local later offset b connected s small units done r pools fresh given live =
      elim (put_value_cases D key value ttl_seconds now h s.consistent.registered (omega arith) (
        granular-CanServe (length value) h.memory_pool.allocator s.consistent.registered.well_formed
          (omega arith) units s.free_units)) [
            | inl (refused, _, _) ↦ absurd (ok_or_refused refused)
            | inr (o, c, stored, _, _) ↦
                rw (put_local connected (omega arith), stored) (refl, answered o c stored)
          ]
    where
      h : Host D
      h = host D p.remote p.memory

      ok_or_refused :
          put_value D key value ttl_seconds now (host D p.remote p.memory)
            ≡ (err pool_exhausted, host D p.remote p.memory)
          → ⊥
      ok_or_refused refused = cc

      serving :
          (o : ℕ) (c : BumpAllocator)
          → put_value D key value ttl_seconds now (host D p.remote p.memory)
            ≡ (ok tt, after_put D key value ttl_seconds now (host D p.remote p.memory) o c)
          → IsServing (after_put D key value ttl_seconds now (host D p.remote p.memory) o c)
      serving o c stored = rw stored at put_serving
        where
          put_serving :
              IsServing (put_value D key value ttl_seconds now (host D p.remote p.memory)).1
          put_serving =
              put_value-IsServing D key value ttl_seconds now (host D p.remote p.memory) s
                (omega arith) units

      answered :
          (o : ℕ) (c : BumpAllocator)
          → put_value D key value ttl_seconds now (host D p.remote p.memory)
            ≡ (ok tt, after_put D key value ttl_seconds now (host D p.remote p.memory) o c)
          → (get key (
              reading_at D later (
                with_host
                  (after_put D key value ttl_seconds now (host D p.remote p.memory) o c)))).0
            ≡ ok value
      answered o c stored =
          ap (λ x. x.0)
            (get_local D later key
              (reading_at D later (with_host (after_put D key value ttl_seconds now h o c))) offset
              b (entry_at D key value ttl_seconds now h o) refl (serving o c stored).consistent
              (serving o c stored).delivers r (unfold after_put in pools) fresh given
              (unfold after_put in
                D.get-insert_self key (entry_at D key value ttl_seconds now h o) h.cache)
              (unfold is_expired in ground arith) small).0
