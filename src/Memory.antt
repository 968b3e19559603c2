-- ===== src/Memory.antt =====
-- src/memory.rs: the bump allocator with its free list, and the memory pool over it.
pub mod FreeList
pub mod Align
pub mod Allocator
pub mod Bytes
pub mod Pool
