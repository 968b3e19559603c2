-- ===== src/Examples/MemoryRuns.antt =====
-- The theorems on memory, messages and transfers at concrete inputs.
use kv_rdma_poc.Shared.{
  ℕ, ◌+◌, ◌*◌, ◌^◌, ◌≤◌, ◌<◌, ◌≡◌, ◌≢◌, ◌↔◌, refl, inr, true, [], ◌∷◌, Option, none, some, arith,
  ok,
}
use kv_rdma_poc.Message.{Message}
use kv_rdma_poc.Protocol.{ValueLocation, CacheEntry, is_expired}
use kv_rdma_poc.Protocol.Pb
use kv_rdma_poc.Protocol.RoundTrip.{is_expired_iff}
use kv_rdma_poc.Memory.FreeList.{insert, get}
use kv_rdma_poc.Memory.Align.{align_up, IsAlignment}
use kv_rdma_poc.Memory.Allocator.{
  BumpAllocator, new, first_fit, bump, allocate, deallocate, available,
}
use kv_rdma_poc.Memory.Allocator.Cases.{Served}
use kv_rdma_poc.Memory.Allocator.Conserve.{IsWithin, IsWellFormed}
use kv_rdma_poc.Memory.Allocator.Sound.{CanServe, IsWithinOption}
use kv_rdma_poc.Memory.Allocator.Live.{IsSound, grant, new-IsSound, allocate-IsSound}
use kv_rdma_poc.Memory.Allocator.History.{Reach, start, next, allocates, frees, Reach-IsSound}
use kv_rdma_poc.Memory.Allocator.Total.{total}
use kv_rdma_poc.Memory.Allocator.Account.{NonEmpty, available_exact}
use kv_rdma_poc.Memory.Allocator.Empty.{allocate_empty}
use kv_rdma_poc.Memory.Allocator.Underflow.{phantom, allocate_underflow}
use kv_rdma_poc.Memory.Pool.{MemoryPool, write, read}
use kv_rdma_poc.Memory.Pool.Access.{read-write}
use kv_rdma_poc.Transport.{TransferRequest, default_routing}
use kv_rdma_poc.Examples.Setup.{zeroed}

pages : IsAlignment 4096
pages = record { bits = 12; bits_le = omega arith; is_pow = refl }

abbrev empty_pool : BumpAllocator
empty_pool = record { offset = 0; capacity = 16384; alignment = 4096; free_list = [] }

abbrev one_page : BumpAllocator
one_page = record { offset = 4096; capacity = 16384; alignment = 4096; free_list = [] }

abbrev two_pages : BumpAllocator
two_pages = record { offset = 12288; capacity = 16384; alignment = 4096; free_list = [] }

abbrev page_freed : BumpAllocator
page_freed = record {
  offset = 12288;
  capacity = 16384;
  alignment = 4096;
  free_list = (0, 4096) ∷ [];
}

-- Two allocations, then the first block is freed.
history : Reach 16384 4096 page_freed ((4096, 8192) ∷ [])
unfolding new allocate deallocate first_fit bump align_up insert
history =
    next
      (next
        (next (start refl refl) (
          allocates {b = one_page} {live' = (0, 4096) ∷ []} 4096 (some 0) (omega arith) (1, refl)
            refl refl))
        (allocates {b = two_pages} {live' = (4096, 8192) ∷ (0, 4096) ∷ []} 8192 (some 4096)
          (omega arith) (2, refl) refl refl))
      (frees 0 4096 ((4096, 8192) ∷ []) [] refl refl refl)

Reach-IsSound_example : IsSound page_freed ((4096, 8192) ∷ []) × IsWithin 12288 ((4096, 8192) ∷ [])
Reach-IsSound_example = Reach-IsSound pages (omega arith) history

history-NonEmpty : NonEmpty history
unfolding history
history-NonEmpty = ((tt, omega arith), omega arith)

available_exact_example : available page_freed + total ((4096, 8192) ∷ []) ≡ 16384
available_exact_example = available_exact pages (omega arith) history history-NonEmpty

allocate_empty_example :
    (allocate {E = ⊥} 0 page_freed ≡ (ok (some 0), page_freed))
    × (available (deallocate 0 0 page_freed) + total ((4096, 8192) ∷ []) + 4096 ≡ 16384)
allocate_empty_example = allocate_empty pages (omega arith) history history-NonEmpty 0 4096 [] refl

allocate-IsSound_example :
    (o : Option ℕ) × (b : BumpAllocator) × (allocate {E = Message} 5000 (new 16384 4096)
      ≡ (ok o, b))
    × IsSound b (grant o 5000 [])
    × Served 5000 (new 16384 4096) o b
    × IsWithinOption b.capacity o 5000
allocate-IsSound_example =
    allocate-IsSound 5000 (new 16384 4096) [] (new-IsSound 16384 4096 pages (omega arith))
      (omega arith) can_serve
  where
    can_serve : CanServe (new 16384 4096) 5000
    can_serve = unfold new in tt

-- A free block of 6000 bytes serves 5000, and the next page starts past its end.
abbrev partial_page : BumpAllocator
partial_page = record {
  offset = 6000;
  capacity = 16384;
  alignment = 4096;
  free_list = (0, 6000) ∷ [];
}

partial_page-IsWellFormed : IsWellFormed partial_page
partial_page-IsWellFormed = record {
  aligned = pages;
  sorted = (tt, tt);
  bounded = omega arith;
  small = omega arith;
  within = (omega arith, tt);
}

allocate_underflow_example :
    (b : BumpAllocator) × (allocate {E = Message} 5000 partial_page ≡ (ok (some 0), b))
    × (get (align_up 4096 5000) b.free_list ≡ some (phantom 0 6000 (align_up 4096 5000)))
    × (b.capacity < phantom 0 6000 (align_up 4096 5000))
unfolding first_fit get align_up
allocate_underflow_example =
    allocate_underflow 5000 0 6000 partial_page partial_page-IsWellFormed refl refl (omega arith)
      (omega arith)

abbrev small_pool : MemoryPool
small_pool = record {
  buffer = 1000;
  buffer_len = 100;
  handle = record { ptr = 1000; len = 100 };
  descriptor = record { ptr = 1000; addr_rkey_list = [] };
  allocator = record { offset = 0; capacity = 100; alignment = 16; free_list = [] };
}

read-write_example :
    (read small_pool 10 2 (write small_pool 10 (7 ∷ 8 ∷ []) zeroed).1 ≡ ok (7 ∷ 8 ∷ []))
    × (read small_pool 20 3 (write small_pool 10 (7 ∷ 8 ∷ []) zeroed).1
        ≡ read small_pool 20 3 zeroed)
read-write_example =
    read-write small_pool 10 zeroed (7 ∷ 8 ∷ []) 20 3 (omega arith) (omega arith)
      (inr (omega arith)) (omega arith)

abbrev remote_location : ValueLocation
remote_location = record {
  node_id = 3;
  mr_descriptor = record {
    ptr = 5000;
    addr_rkey_list = (record { bytes = 1 ∷ [] }, record { key = 2 }) ∷ [];
  };
  offset = 16;
  length = 32;
}

abbrev bare_message : Pb.ValueLocation
bare_message = record { node_id = 3; mr_descriptor = none; offset = 16; length = 32 }

abbrev short_lived : CacheEntry
short_lived = record { value = 1 ∷ []; offset = 0; ttl_seconds = 2; created_at = 500 }

is_expired_iff_example : (is_expired short_lived 3000000000 ≡ true) ↔ (
    (short_lived.ttl_seconds ≢ 0)
    × (short_lived.created_at + short_lived.ttl_seconds * 10 ^ 9 ≤ 3000000000))
is_expired_iff_example = is_expired_iff short_lived 3000000000

abbrev request : TransferRequest
request = record {
  src_handle = record { ptr = 1000; len = 100 };
  src_offset = 4;
  length = 8;
  imm_data = none;
  dst_descriptor = record { ptr = 5000; addr_rkey_list = [] };
  dst_offset = 16;
  routing = default_routing;
}
