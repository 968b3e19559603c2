-- ===== src/Client/Pending.antt =====
-- The requests of `KvCacheClient` that are in flight.
use kv_rdma_poc.Shared.{ℕ, List, [], ◌∷◌, Option, none, some, ◌==◌, if◌then◌else◌}
use kv_rdma_poc.Memory.Pool.{PoolAllocation}

pub record PendingAllocation : Type 0 where
  pub allocation : PoolAllocation
  pub expected_length : ℕ

-- The `HashMap` of the requests in flight.
unfoldable pub insert_pending :
    ℕ → PendingAllocation → List (ℕ × PendingAllocation) → List (ℕ × PendingAllocation)
insert_pending id p [] = (id, p) ∷ []
insert_pending id p ((j, q) ∷ m) = if id == j then (id, p) ∷ m else (j, q) ∷ insert_pending id p m

unfoldable pub get_pending : ℕ → List (ℕ × PendingAllocation) → Option PendingAllocation
get_pending id [] = none
get_pending id ((j, q) ∷ m) = if id == j then some q else get_pending id m

unfoldable pub remove_pending : ℕ → List (ℕ × PendingAllocation) → List (ℕ × PendingAllocation)
remove_pending id [] = []
remove_pending id ((j, q) ∷ m) = if id == j then m else (j, q) ∷ remove_pending id m
