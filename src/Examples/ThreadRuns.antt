-- ===== src/Examples/ThreadRuns.antt =====
-- The theorems on tasks at once at concrete inputs.
use kv_rdma_poc.Shared.{
  ℕ, ◌*◌, ◌^◌, ◌≡◌, refl, inr, List, [], ◌∷◌, some, none, ok, length, arith, All,
}
use kv_rdma_poc.Shared.Text.{range_from, length-range_from}
use kv_rdma_poc.Protocol.{CacheEntry, new_entry, is_expired}
use kv_rdma_poc.Memory.Bytes.{load}
use kv_rdma_poc.Memory.Align.{align_up}
use kv_rdma_poc.Memory.Allocator
use kv_rdma_poc.Memory.Allocator.{first_fit}
use kv_rdma_poc.Memory.Pool
use kv_rdma_poc.Server.{put_value, store_entry, release, get_and_transfer}
use kv_rdma_poc.Server.Threads.{Event, puts, gets, deletes, goes_on, run, idle}
use kv_rdma_poc.Server.Threads.Acted.{IsAllowed}
use kv_rdma_poc.Server.Threads.Safe.{IsSound, run-IsSound}
use kv_rdma_poc.Server.Threads.Kept.{Keeps, get_after_schedule}
use kv_rdma_poc.Server.Threads.Expired.{expired_get-drops-put}
use kv_rdma_poc.Examples.Setup.{entries}
use kv_rdma_poc.Examples.ServerRuns.{booted, key_a, location_b, location_b-IsTarget}
use kv_rdma_poc.Examples.Histories.{
  page, key_b, key_b-ne, booted_units, booted-IsServing, with_page, with_page-IsServing, page_entry,
  page_cached,
}

-- Two puts, a get and a delete of the first key, and a put of the second, step by step.
abbrev busy : List (ℕ × Event)
busy =
    (0, puts key_a page 60 0)
    ∷ (1, puts key_b page 60 0)
    ∷ (0, goes_on)
    ∷ (2, gets key_a location_b 5)
    ∷ (3, deletes key_a)
    ∷ (1, goes_on)
    ∷ (0, puts key_b page 60 6)
    ∷ (3, goes_on)
    ∷ (2, goes_on)
    ∷ []

page-IsAllowed : IsAllowed entries booted (puts key_a page 60 0)
page-IsAllowed = (omega (arith, length-range_from 0 4096), booted_units)

busy-IsAllowed : All (λ (e : ℕ × Event). IsAllowed entries booted e.1) busy
busy-IsAllowed = (
  page-IsAllowed,
  (
    page-IsAllowed,
    (tt, ((location_b-IsTarget, inr (omega arith)), (tt, (tt, (page-IsAllowed, (tt, (tt, tt))))))),
  ),
)

run-IsSound_example :
    IsSound entries (run entries busy (record { host = booted; tasks = λ _. idle }))
run-IsSound_example = run-IsSound entries booted busy booted-IsServing busy-IsAllowed

-- The put and the delete of another key, one inside the other.
abbrev beside : List (ℕ × Event)
beside =
    (1, puts key_b page 60 1)
    ∷ (2, deletes key_b)
    ∷ (2, goes_on)
    ∷ (1, goes_on)
    ∷ (2, gets key_a location_b 3)
    ∷ []

beside-IsAllowed : All (λ (e : ℕ × Event). IsAllowed entries with_page e.1) beside
unfolding put_value store_entry new_entry Pool.allocate Pool.allocated Pool.write Allocator.new
    Allocator.allocate Allocator.bump first_fit align_up range_from
beside-IsAllowed = (
  (omega (arith, length-range_from 0 4096), (1, refl)),
  (tt, (tt, (tt, ((location_b-IsTarget, inr (omega arith)), tt)))),
)

beside-Keeps : All (λ (e : ℕ × Event). Keeps key_a 60 0 e.1) beside
beside-Keeps = (key_b-ne, (key_b-ne, (tt, (tt, (inr (omega arith), tt)))))

get_after_schedule_example :
    let s = run entries beside (record { host = with_page; tasks = λ _. idle }) in
    let r = get_and_transfer entries key_a location_b 5 s.host in
    (r.0 ≡ ok (length page)) × (load r.1.memory 5016 (length page) ≡ page)
get_after_schedule_example =
    get_after_schedule entries with_page key_a page_entry beside 5 location_b with_page-IsServing
      page_cached beside-IsAllowed beside-Keeps location_b-IsTarget (inr (omega arith))

put_again : (put_value entries key_a page 60 (61 * 10 ^ 9) with_page).0 ≡ ok tt
unfolding put_value store_entry release new_entry Pool.allocate Pool.allocated Pool.write
    Pool.deallocate Allocator.deallocate Allocator.new Allocator.allocate Allocator.bump first_fit
    align_up range_from
put_again = refl

expired_get-drops-put_example :
    let put = (put_value entries key_a page 60 (61 * 10 ^ 9) with_page).1 in
    let s =
      run entries
        ((0, gets key_a location_b (60 * 10 ^ 9))
          ∷ (1, puts key_a page 60 (61 * 10 ^ 9))
          ∷ (1, goes_on)
          ∷ (0, goes_on)
          ∷ [])
        (record { host = with_page; tasks = λ _. idle }) in
    (d : CacheEntry) × (put.cache key_a ≡ some d)
    × (d.value ≡ page)
    × (s.host.cache key_a ≡ none)
    × (s.host.memory_pool ≡ put.memory_pool)
expired_get-drops-put_example =
    expired_get-drops-put entries 0 1 (λ e. omega arith) key_a location_b (60 * 10 ^ 9) page 60
      (61 * 10 ^ 9) page_entry with_page page_cached (unfold is_expired in refl) put_again
