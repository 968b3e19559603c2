-- ===== src/Memory/Pool.antt =====
-- `MemoryPool` of src/memory.rs: a buffer at an address of the process, its registration and the
-- allocator. The methods that lock the allocator are actions on the pool; those that touch the
-- bytes are actions on the memory.
pub mod Access
use kv_rdma_poc.Shared.{
  ℕ, ◌+◌, ◌*◌, List, [], Option, none, some, ltb, length, if◌then◌else◌, Outcome, ok, err, panic,
  Exec,
}
use kv_rdma_poc.Shared.Word.{add64}
use kv_rdma_poc.Message.{Message, pool_exhausted, write_exceeds_pool, read_exceeds_pool}
use kv_rdma_poc.Protocol.{MemoryRegionHandle, MemoryRegionDescriptor, new_descriptor}
use kv_rdma_poc.Memory.Bytes.{Memory, load, store}
use kv_rdma_poc.Memory.Allocator
use kv_rdma_poc.Memory.Allocator.{BumpAllocator}
use kv_rdma_poc.Transport.{RdmaTransportTrait, RdmaTransport}

pub record MemoryPoolConfig : Type 0 where
  pub size : ℕ
  pub alignment : ℕ

abbrev pub default_config : MemoryPoolConfig
default_config = record { size = 1024 * 1024 * 1024; alignment = 4096 }

-- The buffer is the `buffer_len` bytes from `buffer` on.
pub record MemoryPool : Type 0 where
  pub buffer : ℕ
  pub buffer_len : ℕ
  pub handle : MemoryRegionHandle
  pub descriptor : MemoryRegionDescriptor
  pub allocator : BumpAllocator

pub record PoolAllocation : Type 0 where
  pub offset : ℕ
  pub size : ℕ
  pub ptr : ℕ

pub record PoolStats : Type 0 where
  pub total : ℕ
  pub used : ℕ
  pub available : ℕ

unfoldable pub register :
    Option RdmaTransport → ℕ → ℕ → Outcome Message (MemoryRegionHandle × MemoryRegionDescriptor)
unfolding new_descriptor
register none ptr size = ok (record { ptr = ptr; len = size }, new_descriptor ptr [])
register (some transport) ptr size = transport.inner.register_memory ptr size

-- `buffer` is the address of the zeroed vector.
unfoldable pub new :
    MemoryPoolConfig → Option RdmaTransport → (buffer : ℕ) → Outcome Message MemoryPool
unfolding register Allocator.new
new config transport buffer = elim (register transport buffer config.size) [
  | ok (handle, descriptor) ↦ ok (record {
    buffer = buffer;
    buffer_len = config.size;
    handle = handle;
    descriptor = descriptor;
    allocator = Allocator.new config.size config.alignment;
  })
  | err m ↦ err m
  | panic ↦ panic
]

-- `ok_or_else` on what the allocator returns.
unfoldable pub allocated :
    ℕ
    → MemoryPool
    → Outcome Message (Option ℕ) × BumpAllocator
    → Outcome Message PoolAllocation × MemoryPool
allocated size pool (ok none, a) = (err pool_exhausted, record pool { allocator = a })
allocated size pool (ok (some offset), a) = (
  ok (record { offset = offset; size = size; ptr = add64 pool.buffer offset }),
  record pool { allocator = a },
)
allocated size pool (err m, a) = (err m, record pool { allocator = a })
allocated size pool (panic, a) = (panic, record pool { allocator = a })

unfoldable pub allocate : ℕ → Exec MemoryPool Message PoolAllocation
unfolding allocated
allocate size pool = allocated size pool (Allocator.allocate size pool.allocator)

unfoldable pub deallocate : PoolAllocation → MemoryPool → MemoryPool
deallocate allocation pool = record pool {
  allocator = Allocator.deallocate allocation.offset allocation.size pool.allocator;
}

-- The slice panics where its end has wrapped round below its start.
unfoldable pub write : MemoryPool → ℕ → List ℕ → Exec Memory Message (Unit {0})
write pool offset bytes memory =
    if ltb pool.buffer_len (add64 offset (length bytes))
    then (err write_exceeds_pool, memory)
    else if ltb (add64 offset (length bytes)) offset
    then (panic, memory)
    else (ok tt, store memory (pool.buffer + offset) bytes)

unfoldable pub read : MemoryPool → ℕ → ℕ → Memory → Outcome Message (List ℕ)
read pool offset len memory =
    if ltb pool.buffer_len (add64 offset len)
    then err read_exceeds_pool
    else if ltb (add64 offset len) offset
    then panic
    else ok (load memory (pool.buffer + offset) len)

unfoldable pub ptr_at : MemoryPool → ℕ → ℕ
ptr_at pool offset = add64 pool.buffer offset

unfoldable pub stats : MemoryPool → PoolStats
unfolding Allocator.used Allocator.available
stats pool = record {
  total = pool.buffer_len;
  used = Allocator.used pool.allocator;
  available = Allocator.available pool.allocator;
}
