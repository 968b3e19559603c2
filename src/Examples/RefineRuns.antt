-- ===== src/Examples/RefineRuns.antt =====
-- The theorems on the abstract cache and on room for a put, at concrete inputs.
use kv_rdma_poc.Shared.{ℕ, ◌≡◌, refl, inr, List, [], ◌∷◌, Bool, arith}
use kv_rdma_poc.Shared.Text.{range_from, length-range_from}
use kv_rdma_poc.Protocol.{new_entry}
use kv_rdma_poc.Memory.Align.{align_up}
use kv_rdma_poc.Memory.Allocator
use kv_rdma_poc.Memory.Allocator.{BumpAllocator, first_fit}
use kv_rdma_poc.Memory.Pool
use kv_rdma_poc.Server.{put_value, store_entry}
use kv_rdma_poc.Server.Abstract.{replay}
use kv_rdma_poc.Server.Refine.{view, run, AreAllowed, run_refines}
use kv_rdma_poc.Server.Room.{HasRoom}
use kv_rdma_poc.Server.History.{Call, puts, gets, deletes}
use kv_rdma_poc.Examples.Setup.{entries}
use kv_rdma_poc.Examples.ServerRuns.{booted, key_a, location_b, location_b-IsTarget}
use kv_rdma_poc.Examples.Histories.{page, booted-IsServing, booted_units}

abbrev three_calls : List Call
three_calls = puts key_a page 60 0 ∷ gets key_a location_b 5 ∷ deletes key_a ∷ []

three_calls-AreAllowed : AreAllowed entries three_calls booted
unfolding put_value store_entry new_entry Pool.allocate Pool.allocated Pool.write Allocator.new
    Allocator.allocate Allocator.bump first_fit align_up range_from
three_calls-AreAllowed = (
  (omega (arith, length-range_from 0 4096), booted_units),
  ((location_b-IsTarget, inr (omega arith)), (tt, tt)),
)

run_refines_example :
    (room : ℕ → Bool) × ((
      (run entries three_calls booted).0,
      view entries (run entries three_calls booted).1,
    )
      ≡ replay three_calls room (view entries booted))
run_refines_example = run_refines entries three_calls booted booted-IsServing three_calls-AreAllowed

pub booted-HasRoom : HasRoom booted.memory_pool.allocator 16384
unfolding Allocator.new
booted-HasRoom = record { above = (0, refl); room = omega arith }
