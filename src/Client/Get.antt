-- ===== src/Client/Get.antt =====
-- `get` of src/client.rs, for any server behind the channel.
pub mod Local
pub mod Again
use kv_rdma_poc.Shared.{
  ℕ, ◌+◌, ◌≤◌, ◌<◌, ◌≡◌, refl, List, [], ◌∷◌, Option, none, some, arith, true, false, ◌==◌,
  if◌then◌else◌, length, ok, err,
}
use kv_rdma_poc.Shared.Word.{add64}
use kv_rdma_poc.Message.{Message, Status, rpc_failed, get_failed}
use kv_rdma_poc.Protocol.Pb
use kv_rdma_poc.Memory.Bytes.{Memory, load}
use kv_rdma_poc.Memory.Allocator
use kv_rdma_poc.Memory.Allocator.{BumpAllocator}
use kv_rdma_poc.Memory.Allocator.Conserve.{max_len}
use kv_rdma_poc.Memory.Pool
use kv_rdma_poc.Memory.Pool.{MemoryPool, PoolAllocation, allocated}
use kv_rdma_poc.Memory.Pool.Access.{read_in_range}
use kv_rdma_poc.Client.{
  KvCacheServiceClient, PendingAllocation, Process, max_value_size, insert_pending, get_pending,
  remove_pending, stub, next_request_id, allocate_buffer, free_buffer, track, untrack, get_request,
  response_location, read_value, finish_get, get,
}

get-insert_pending :
    (id : ℕ) (a : PendingAllocation) (m : List (ℕ × PendingAllocation))
    → get_pending id (insert_pending id a m) ≡ some a
unfolding get_pending insert_pending
get-insert_pending id a [] = ground arith
get-insert_pending id a ((j, b) ∷ m) = ground (arith, get-insert_pending id a m)

remove-insert_pending :
    (id : ℕ) (a : PendingAllocation) (m : List (ℕ × PendingAllocation))
    → get_pending id m ≡ none
    → remove_pending id (insert_pending id a m) ≡ m
unfolding get_pending insert_pending remove_pending
remove-insert_pending id a [] h = ground arith
remove-insert_pending id a ((j, b) ∷ m) h = ground (arith, remove-insert_pending id a m)

module _ {R : Type 0} (key : List ℕ) (p : Process R) (s : KvCacheServiceClient R) (offset : ℕ)
    (b : BumpAllocator) where
  abbrev pub buffer : PoolAllocation
  buffer = record {
    offset = offset;
    size = max_value_size;
    ptr = add64 p.memory_pool.buffer offset;
  }

  abbrev pub waiting : PendingAllocation
  waiting = record { allocation = buffer; expected_length = max_value_size }

  -- The process with a request in flight, or after it.
  abbrev pub with_state : BumpAllocator → List (ℕ × PendingAllocation) → R → Memory → Process R
  with_state a pending remote memory = record {
    client = record p.client {
      memory_pool = record p.memory_pool { allocator = a };
      pending = pending;
      request_counter = add64 p.request_counter 1;
    };
    remote = remote;
    memory = memory;
  }

  abbrev pub in_flight : R → Memory → Process R
  in_flight = with_state b (insert_pending p.request_counter waiting p.pending)

  abbrev pub request : Pb.GetRequest
  request = get_request key p.request_counter buffer (in_flight p.remote p.memory)

  abbrev pub done : R → Memory → Process R
  done = with_state (Allocator.deallocate offset max_value_size b) p.pending

  module _ (connected : p.grpc_client ≡ some s)
      (given : Allocator.allocate {E = Message} max_value_size p.memory_pool.allocator
        ≡ (ok (some offset), b)) where
    -- On a connected client that is given a receive buffer, a call that fails makes get return the
    -- error with the buffer still allocated and the request still in the table.
    pub get_rpc_failed :
        (st : Status) (r : R) (m : Memory)
        → s.get request (p.remote, p.memory) ≡ (err st, (r, m))
        → get key p ≡ (err (rpc_failed st.code st.message), in_flight r m)
    unfolding get get_request response_location Pool.allocate
    get_rpc_failed st r m e = rw (connected, get) (rw (given, allocated) (rw e refl))

    -- On a connected client that is given a receive buffer for a new request id, an answer that
    -- reports a failure makes get return its message, with the buffer freed and the request
    -- forgotten.
    pub get_unsuccessful :
        (response : Pb.GetResponse) (r : R) (m : Memory)
        → get_pending p.request_counter p.pending ≡ none
        → s.get request (p.remote, p.memory) ≡ (ok response, (r, m))
        → response.success ≡ false
        → get key p ≡ (err (get_failed response.error_message), done r m)
    unfolding get get_request response_location Pool.allocate Pool.deallocate
    get_unsuccessful response r m fresh e bad =
        rw (connected, get)
          (rw (given, allocated)
            (rw e (
              rw (get-insert_pending p.request_counter waiting p.pending, untrack)
                (rw (bad)
                  (rw (remove-insert_pending p.request_counter waiting p.pending fresh) refl)))))

    -- On a connected client that is given a receive buffer for a new request id, an answer that
    -- reports success and a length that fits the pool makes get return the bytes of the buffer,
    -- with the buffer freed and the request forgotten.
    pub get_successful :
        (response : Pb.GetResponse) (r : R) (m : Memory)
        → get_pending p.request_counter p.pending ≡ none
        → s.get request (p.remote, p.memory) ≡ (ok response, (r, m))
        → response.success ≡ true
        → offset + response.value_length ≤ p.memory_pool.buffer_len
        → p.memory_pool.buffer_len ≤ max_len
        → get key p ≡ (ok (load m (p.memory_pool.buffer + offset) response.value_length), done r m)
    unfolding get get_request response_location Pool.allocate Pool.deallocate
    get_successful response r m fresh e good fits small =
        rw (connected, get)
          (rw (given, allocated)
            (rw e (
              rw (get-insert_pending p.request_counter waiting p.pending, untrack)
                (rw (good) (
                  rw
                    (
                      read_in_range (record p.memory_pool { allocator = b }) offset m
                          response.value_length fits small,
                      remove-insert_pending p.request_counter waiting p.pending fresh,
                    )
                    refl)))))
