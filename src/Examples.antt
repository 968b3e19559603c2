-- ===== src/Examples.antt =====
-- The theorems at concrete inputs, with a map, a server and a client in one process that are small
-- enough to run.
mod BenchRuns
pub mod Setup
mod MemoryRuns
mod ServerRuns
mod ClientRuns
mod Histories
mod PutRuns
mod RefineRuns
mod FabricRuns
mod PhaseRuns
mod PromptRuns
mod TallyRuns
mod ThreadRuns
