-- ===== src/Client/Get/Again.antt =====
-- A client that gets one key after another from the server in its process: after a get it is ready
-- for the next.
use kv_rdma_poc.Shared.{
  ℕ, ◌+◌, ◌≤◌, ◌<◌, ◌≡◌, ap, ◌∙◌, [], Option, none, some, arith, false, length, ok,
}
use kv_rdma_poc.Shared.Word.{word}
use kv_rdma_poc.Message.{Message}
use kv_rdma_poc.Protocol.{CacheEntry, is_expired}
use kv_rdma_poc.Memory.Bytes.{Memory}
use kv_rdma_poc.Memory.Align.{Multiple}
use kv_rdma_poc.Memory.FreeList.{insert, get-insert_self, All-insert}
use kv_rdma_poc.Memory.FreeList.Sorted.{insert-IsSorted}
use kv_rdma_poc.Memory.Allocator
use kv_rdma_poc.Memory.Allocator.{BumpAllocator, deallocate}
use kv_rdma_poc.Memory.Allocator.Cases.{
  Served, Served-of_allocate, allocate-Served, exhausted, reused, bumped, first_fit-none,
}
use kv_rdma_poc.Memory.Allocator.Conserve.{IsWellFormed}
use kv_rdma_poc.Memory.Allocator.Sound.{IsConserving, Served-IsConserving}
use kv_rdma_poc.Memory.Allocator.Granular.{
  IsUnits, IsGranular, granular-CanServe, Served-Multiple, Served-IsGranular,
}
use kv_rdma_poc.Memory.Pool.{MemoryPool}
use kv_rdma_poc.Server.EntryMap.{DashMap, Key}
use kv_rdma_poc.Server.{KvCacheServer}
use kv_rdma_poc.Server.Consistent.{IsConsistent}
use kv_rdma_poc.Transport.Mock.Copies.{Delivers}
use kv_rdma_poc.Client.{KvCacheClient, Process, max_value_size, get_pending, get}
use kv_rdma_poc.Client.Get.{done}
use kv_rdma_poc.Client.Get.Local.{host, local_stub, IsReceiving, IsApart, received, get_local}

-- An allocator that has a megabyte to give.
pub record CanReceive (a : BumpAllocator) : Type 0 where
  pub well_formed : IsWellFormed a
  pub granular : IsGranular a.alignment a.free_list
  pub units : Multiple a.alignment max_value_size
  pub granted :
      (offset : ℕ) × (b : BumpAllocator) × (Allocator.allocate {E = Message} max_value_size a
        ≡ (ok (some offset), b))

-- What has been given back can be given again.
module _ (a : BumpAllocator) (c : CanReceive a) (offset : ℕ) (b : BumpAllocator)
    (given : Allocator.allocate {E = Message} max_value_size a ≡ (ok (some offset), b)) where
  served : Served max_value_size a (some offset) b
  served = Served-of_allocate max_value_size a (some offset) b c.well_formed.sorted given

  conserving : IsConserving max_value_size a (some offset) b
  conserving =
      Served-IsConserving max_value_size a c.well_formed (omega arith) (some offset) b
        (granular-CanServe max_value_size a c.well_formed (omega arith) c.units c.granular) served

  returned-IsWellFormed : IsWellFormed (deallocate offset max_value_size b)
  unfolding deallocate
  returned-IsWellFormed = record {
    aligned = conserving.well_formed.aligned;
    sorted = insert-IsSorted offset max_value_size b.free_list conserving.well_formed.sorted;
    bounded = conserving.well_formed.bounded;
    small = conserving.well_formed.small;
    within =
        All-insert (λ (p : ℕ × ℕ). p.0 + p.1 ≤ b.offset) offset max_value_size b.free_list
          conserving.in_range conserving.well_formed.within;
  }

  granted_again :
      (o : Option ℕ) (d : BumpAllocator)
      → Served max_value_size (deallocate offset max_value_size b) o d
      → (p : ℕ) × (o ≡ some p)
  unfolding deallocate
  granted_again o d (reused p size e l eo ed) = (p, eo)
  granted_again o d (bumped h eo ed) = (_, eo)
  granted_again o d (exhausted none_fits h eo ed) = absurd (
      omega (
        arith,
        first_fit-none max_value_size offset max_value_size
            (insert offset max_value_size b.free_list) none_fits
            (get-insert_self offset max_value_size b.free_list),
      ))

  pub returned-CanReceive : CanReceive (deallocate offset max_value_size b)
  unfolding deallocate
  returned-CanReceive = record {
    well_formed = returned-IsWellFormed;
    granular = rw conserving.same_alignment (
        All-insert (IsUnits a.alignment) offset max_value_size b.free_list
          (
            Served-Multiple max_value_size a c.well_formed (omega arith) c.units c.granular offset b
                served,
            c.units,
          )
          (Served-IsGranular max_value_size a c.well_formed (omega arith) c.units c.granular
            (some offset) b served));
    units = rw conserving.same_alignment c.units;
    granted = granted;
  }
    where
      granted :
          (p : ℕ) × (d : BumpAllocator) × (Allocator.allocate {E = Message} max_value_size
              (record b { free_list = insert offset max_value_size b.free_list })
            ≡ (ok (some p), d))
      granted =
          let (o, d, e, v) =
            allocate-Served {E = Message} max_value_size
              (record b { free_list = insert offset max_value_size b.free_list })
              returned-IsWellFormed.sorted in
          let (p, eq) = granted_again o d v in (p, d, e ∙ ap (λ (x : Option ℕ). (ok x, d)) eq)

-- A client between its gets, beside the pool of the server.
module _ (D : DashMap) (now : ℕ) where
  pub record IsReader (pool : MemoryPool) (c : KvCacheClient (KvCacheServer D)) : Type 0 where
    pub connected : c.grpc_client ≡ some (local_stub D now)
    pub can_receive : CanReceive c.memory_pool.allocator
    pub whole : c.memory_pool.allocator.capacity ≡ c.memory_pool.buffer_len
    pub base : c.memory_pool.descriptor.ptr ≡ c.memory_pool.buffer
    pub not_null : 0 < c.memory_pool.buffer
    pub addressed : c.memory_pool.buffer + c.memory_pool.buffer_len < word
    pub apart : IsApart c.memory_pool pool
    pub idle : c.pending ≡ []

  module _ (key : Key) (p : Process (KvCacheServer D)) (r : IsReader p.remote.memory_pool p.client)
      (s : IsConsistent (host D p.remote p.memory)) (t : Delivers p.remote.transport.inner)
      (e : CacheEntry) (found : D.get key p.remote.cache ≡ some e) (live : is_expired e now ≡ false)
      (fits : length e.value ≤ max_value_size) where
    receiving : IsReceiving p.memory_pool
    receiving = record {
      well_formed = r.can_receive.well_formed;
      can_serve =
          granular-CanServe max_value_size p.memory_pool.allocator r.can_receive.well_formed
            (omega arith) r.can_receive.units r.can_receive.granular;
      whole = r.whole;
      base = r.base;
      not_null = r.not_null;
      addressed = r.addressed;
    }

    fresh : get_pending p.request_counter p.pending ≡ none
    unfolding get_pending
    fresh = rw r.idle

    done-IsReader :
        (offset : ℕ) (b : BumpAllocator)
        → Allocator.allocate {E = Message} max_value_size p.memory_pool.allocator
          ≡ (ok (some offset), b)
        → IsReader p.remote.memory_pool
            (done key p
              (local_stub D now)
              offset
              b
              p.remote
              (received D now key p offset b e)).client
    unfolding deallocate
    done-IsReader offset b given = record {
      connected = r.connected;
      can_receive =
          unfold deallocate in
          returned-CanReceive p.memory_pool.allocator r.can_receive offset b given;
      whole =
          (conserving p.memory_pool.allocator r.can_receive offset b given).same_capacity ∙ r.whole;
      base = r.base;
      not_null = r.not_null;
      addressed = r.addressed;
      apart = r.apart;
      idle = r.idle;
    }

    -- The get returns the value, and the client can get again.
    pub get_again :
        (c : KvCacheClient (KvCacheServer D)) × (memory : Memory) × (get key p
          ≡ (ok e.value, record { client = c; remote = p.remote; memory = memory }))
        × IsReader p.remote.memory_pool c
        × IsConsistent (host D p.remote memory)
    get_again =
        let (offset, b, given) = r.can_receive.granted in
        let (run, consistent) =
          get_local D now key p offset b e r.connected s t receiving r.apart fresh given found live
            fits in
        (
          (done key p (local_stub D now) offset b p.remote
              (received D now key p offset b e)).client,
          received D now key p offset b e,
          run,
          done-IsReader offset b given,
          consistent,
        )
