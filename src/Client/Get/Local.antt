-- ===== src/Client/Get/Local.antt =====
-- A client and a server in one process, as in tests/integration_test.rs: a channel that hands each
-- request to the handler of the server, and the answer back.
use kv_rdma_poc.Shared.{
  ℕ, ◌+◌, ◌≤◌, ◌<◌, ◌≡◌, refl, sym, ap, ◌∙◌, ◌⊎◌, List, none, some, arith, true, false, length, ok,
  Exec,
}
use kv_rdma_poc.Shared.Word.{word}
use kv_rdma_poc.Message.{Message, Status, empty}
use kv_rdma_poc.Protocol.{CacheEntry, is_expired, ValueLocation, location_to_pb}
use kv_rdma_poc.Protocol.RoundTrip.{location_round_trip}
use kv_rdma_poc.Memory.Bytes.{Memory, load, copy, load-copy}
use kv_rdma_poc.Memory.Allocator
use kv_rdma_poc.Memory.Allocator.{BumpAllocator}
use kv_rdma_poc.Memory.Allocator.Cases.{Served-of_allocate}
use kv_rdma_poc.Memory.Allocator.Conserve.{IsWellFormed}
use kv_rdma_poc.Memory.Allocator.Sound.{CanServe, IsConserving, Served-IsConserving}
use kv_rdma_poc.Memory.Pool.{MemoryPool}
use kv_rdma_poc.Transport.Mock.Copies.{Delivers}
use kv_rdma_poc.Server.EntryMap.{DashMap, Key}
use kv_rdma_poc.Server.{Host, KvCacheServer}
use kv_rdma_poc.Server.Service
use kv_rdma_poc.Server.Service.{get_response, get_reply}
use kv_rdma_poc.Server.Consistent.{IsConsistent}
use kv_rdma_poc.Server.Get.{target, IsTarget, get_and_transfer_found, after_transfer-IsConsistent}
use kv_rdma_poc.Client.{
  KvCacheServiceClient, Process, max_value_size, get_pending, get_request, response_location, get,
}
use kv_rdma_poc.Client.Get.{buffer, request, in_flight, done, get_successful}

module _ (D : DashMap) where
  abbrev pub host : KvCacheServer D → Memory → Host D
  host server memory = record { server = server; memory = memory }

  abbrev pub on_host :
      {A : Type 0} → Exec (Host D) Status A → Exec (KvCacheServer D × Memory) Status A
  on_host m s = let (r, h) = m (host s.0 s.1) in (r, (h.server, h.memory))

  abbrev pub local_stub : ℕ → KvCacheServiceClient (KvCacheServer D)
  local_stub now = record {
    get = λ req. on_host (Service.get D now req);
    put = λ req. on_host (Service.put D now req);
    delete = λ req. on_host (Service.delete D req);
    register_client = λ req. on_host (Service.register_client D req);
    heartbeat = λ req. on_host (Service.heartbeat D req);
  }

-- A receive pool as `KvCacheClient::new` makes it, and as it stays between requests.
pub record IsReceiving (pool : MemoryPool) : Type 0 where
  pub well_formed : IsWellFormed pool.allocator
  pub can_serve : CanServe pool.allocator max_value_size
  pub whole : pool.allocator.capacity ≡ pool.buffer_len
  pub base : pool.descriptor.ptr ≡ pool.buffer
  pub not_null : 0 < pool.buffer
  pub addressed : pool.buffer + pool.buffer_len < word

-- Two pools that share no address.
abbrev pub IsApart : MemoryPool → MemoryPool → Type 0
IsApart p q = (p.buffer + p.buffer_len ≤ q.buffer) ⊎ (q.buffer + q.buffer_len ≤ p.buffer)

module _ (D : DashMap) (now : ℕ) (key : Key) (p : Process (KvCacheServer D)) (offset : ℕ)
    (b : BumpAllocator) (e : CacheEntry) where
  abbrev location : ValueLocation
  location =
      response_location (in_flight key p (local_stub D now) offset b p.remote p.memory)
        (buffer key p (local_stub D now) offset b)

  -- The memory after the value has been copied into the receive buffer.
  abbrev pub received : Memory
  received =
      copy p.memory (p.remote.memory_pool.buffer + e.offset) (p.memory_pool.descriptor.ptr + offset)
        (length e.value)

  handler_reply :
      IsConsistent (host D p.remote p.memory)
      → Delivers p.remote.transport.inner
      → IsTarget location
      → D.get key p.remote.cache ≡ some e
      → is_expired e now ≡ false
      → (local_stub D now).get (request key p (local_stub D now) offset b) (p.remote, p.memory)
        ≡ (ok (get_response true (length e.value) empty p.request_counter), (p.remote, received))
  unfolding Service.get get_request response_location
  handler_reply s t l found live = rw ((location_round_trip location (location_to_pb location)).0) (
      rw (get_and_transfer_found D key location now (host D p.remote p.memory) e s t l found live)
        refl)

  -- A connected client in the process of a consistent server whose transport delivers gets a key
  -- that is cached and has not expired: where its pool is ready to receive, it is given a receive
  -- buffer for a new request id, the value fits a megabyte, and the two pools share no address, it
  -- returns the cached value with the buffer freed and the request forgotten, and leaves the
  -- server consistent.
  pub get_local :
      p.grpc_client ≡ some (local_stub D now)
      → IsConsistent (host D p.remote p.memory)
      → Delivers p.remote.transport.inner
      → IsReceiving p.memory_pool
      → IsApart p.memory_pool p.remote.memory_pool
      → get_pending p.request_counter p.pending ≡ none
      → Allocator.allocate {E = Message} max_value_size p.memory_pool.allocator
        ≡ (ok (some offset), b)
      → D.get key p.remote.cache ≡ some e
      → is_expired e now ≡ false
      → length e.value ≤ max_value_size
      → (get key p ≡ (ok e.value, done key p (local_stub D now) offset b p.remote received))
        × IsConsistent (host D p.remote received)
  unfolding response_location
  get_local connected s t r pools fresh given found live fits = (
    get_successful key p (local_stub D now) offset b connected given
          (get_response true (length e.value) empty p.request_counter) p.remote received fresh
          (handler_reply s t addressed found live) refl (omega (arith, room))
          (omega (arith, r.whole, r.well_formed.small))
        ∙ ap (λ (v : List ℕ). (ok v, done key p (local_stub D now) offset b p.remote received))
            arrived,
    after_transfer-IsConsistent D key location now (host D p.remote p.memory) e s outside,
  )
    where
      c : IsConserving max_value_size p.memory_pool.allocator (some offset) b
      c =
          Served-IsConserving max_value_size p.memory_pool.allocator r.well_formed (omega arith)
            (some offset) b r.can_serve
            (Served-of_allocate max_value_size p.memory_pool.allocator (some offset) b
              r.well_formed.sorted given)

      room : offset + max_value_size ≤ p.memory_pool.buffer_len
      room = omega (arith, c.in_range, c.well_formed.bounded, c.same_capacity, r.whole)

      addressed : IsTarget location
      addressed = record {
        not_null = omega (arith, r.base, r.not_null);
        fits = omega (arith, r.base, r.addressed, room);
      }

      arrived : load received (p.memory_pool.buffer + offset) (length e.value) ≡ e.value
      arrived =
          ap (λ (q : ℕ). load received (q + offset) (length e.value)) (sym r.base)
          ∙ load-copy p.memory (p.remote.memory_pool.buffer + e.offset)
              (p.memory_pool.descriptor.ptr + offset) (length e.value)
          ∙ s.bytes key e found

      outside :
          (target location + length e.value ≤ p.remote.memory_pool.buffer)
          ⊎ (p.remote.memory_pool.buffer + p.remote.memory_pool.buffer_len ≤ target location)
      outside = ground (arith, pools, r.base, room, fits)
