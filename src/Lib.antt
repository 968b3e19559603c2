-- ===== src/Lib.antt =====
-- A key-value cache whose values travel by RDMA: a server keeps values in a registered memory pool
-- and writes them straight into a buffer of the client that asks, and a gRPC service carries the
-- requests.
--
-- The parts, and the files that model them:
--
-- * Memory (src/memory.rs). Memory/FreeList.antt is the `BTreeMap` of free blocks, Memory/Align.antt
--   the rounding, Memory/Allocator.antt `BumpAllocator`, Memory/Pool.antt `MemoryPool`, and
--   Memory/Bytes.antt the bytes of a process by address. Below Memory/Allocator.antt stand the
--   proofs: Cases (how a request is served), Conserve and Sound (no byte is made or lost to two
--   owners), Live (beside the live blocks), Granular and History (whole pages), Account (what is
--   available) over Total, Underflow and Empty.
-- * Protocol (src/protocol.rs, proto/kv_cache.proto). Protocol.antt has the types and conversions,
--   Protocol/Pb.antt the messages.
-- * Transport (src/transport.rs). Transport.antt has the requests and the trait,
--   Transport/Mock.antt `MockTransport` and `RdmaTransport::new`, and Transport/Mock/Copies.antt what
--   the server relies on a transport for, as an interface that the mock transport fills.
--   Transport/Fabric.antt is `FabricTransport`, over fabric_lib as a parameter; below it CpuList
--   parses the CPUs of a NUMA node, and Engine is about a transfer between regions that two engines
--   have registered.
-- * Server (src/server.rs). Server.antt is `KvCacheServer`, Server/Service.antt the handlers of the
--   service, Server/EntryMap.antt the interface of `DashMap`. Server/Consistent.antt states the
--   invariant, which Put, Stored, Get, Delete and Fresh are about;
--   Server/Serving.antt adds that all blocks are whole pages, and Server/History.antt runs calls one
--   after another. Server/Abstract.antt is the cache as a map, Server/Refine.antt compares the server
--   with it, Server/Room.antt is about a put that has room, and Server/Startup.antt is `run_server`
--   and src/bin/server.rs. Server/Threads.antt cuts the calls into the steps that tasks at once make
--   in any order. Below it, Overlay takes the blocks of the tasks as entries of a larger map, Moves,
--   Grows and Acted are about one step, and Safe, Kept and Expired about a schedule.
-- * Client (src/client.rs). Client.antt is `KvCacheClient` over a stub of the service, Client/Get.antt
--   what `get` does for any answer, and Client/Get/Local.antt a client and a server in one process,
--   which the mock transport is made for; Client/Get/Again.antt is about one get after another, and
--   Client/Put.antt about `put`. Client/Pending.antt has the table of requests, and
--   Client/Surroundings.antt what the binaries that make a client are given.
-- * Benchmark (src/bin/bench.rs). Bench.antt has its arguments, keys and clients, Bench/Size.antt
--   `parse_size`, Bench/Share.antt the partition of the keys among the workers, Bench/Phases.antt the
--   phases and `main`, and Bench/Latency.antt the statistics. Bench/Share/Order.antt is about workers
--   in any order, Bench/Phases/Counts.antt and Tally.antt about the read phase over any server, and
--   Bench/Phases/Local.antt and the modules below it about the server in the same process: Written,
--   Room and Stored the write phase, Started, Joined and Clients the clients, Read the read phase,
--   Sampled the warmup and the latency analysis, Cleared and Deleted the delete phase, Ready the state
--   before the reads, and Whole all of `main`.
-- * Prompt.antt is src/bin/client.rs: its commands, and its prompt line by line. Below it stand
--   RoundTrip, Errors and Stops.
-- * Message.antt has the errors and Shared.antt the helpers. Examples.antt has the runs.
--
-- How the code is read. A method on `&mut self`, or one that takes a lock, is a function from
-- the state to an outcome and the state after it; `?` is the bind of Shared/Results.antt, and a
-- panic is an outcome of its own. Words are natural numbers below 2 ^ 64, and their sums and
-- differences wrap round as in a release build (Shared/Word.antt). `Instant::now()` is a number
-- of nanoseconds that a call is given. A hash map of the standard library is an association
-- list, and a buffer is a range of addresses of one memory. A call runs on its own, but for
-- Server/History/Race.antt, which runs the transfer of a get after other calls, and
-- Server/Threads.antt; the tasks of a phase of the benchmark run one after another, in an order
-- that is an argument. The server in the process of a client reads one time from its clock in all
-- calls (Client/Get/Local.antt). All recursion is structural, but for the decimal digits of
-- Shared/Text.antt, which are given one more step than the number, and so more steps than it has
-- digits.
--
-- A `Vec<u8>` holds at most `isize::MAX` bytes, which is `max_len` of Memory/Allocator/Conserve.antt.
--
-- The mock transport's copy of bytes that overlap, or that are mapped nowhere, is undefined in the
-- program; here a memory has a byte at every address, and a copy gives the target the bytes that stood
-- at the source before.
--
-- What is written to the standard output does not fail. A duration is a number of nanoseconds without a
-- bound, so that the sum of the times of the latency analysis, whose overflow panics in the program
-- above 2 ^ 64 seconds, does not overflow here.
--
-- Not modelled: the engine of fabric_lib, which is not part of the repository and is a parameter of
-- Transport/Fabric.antt; logging; what the benchmark prints and the throughput that it computes from
-- the clock; the parsing of arguments, which is clap's, and the runtime and the network, which are
-- tokio's and tonic's, with the limits on the size of a message; the topology test, which prints
-- what fabric_lib detects; the encoding of the messages, which is prost's.
mod Shared
mod Message
pub mod Memory
pub mod Protocol
pub mod Transport
pub mod Server
pub mod Client
pub mod Bench
pub mod Prompt
mod Examples
