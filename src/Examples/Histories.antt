-- ===== src/Examples/Histories.antt =====
-- The theorems on histories of calls at concrete inputs.
use kv_rdma_poc.Shared.{
  ℕ, ◌≡◌, ◌≢◌, refl, sym, ap, ◌∙◌, some, inr, List, [], ◌∷◌, none, arith, ok, length,
}
use kv_rdma_poc.Shared.Text.{range_from, length-range_from}
use kv_rdma_poc.Protocol.{CacheEntry, new_entry}
use kv_rdma_poc.Memory.Bytes.{load}
use kv_rdma_poc.Memory.Align.{Multiple, align_up}
use kv_rdma_poc.Memory.Allocator
use kv_rdma_poc.Memory.Allocator.{BumpAllocator, first_fit}
use kv_rdma_poc.Memory.FreeList
use kv_rdma_poc.Memory.Pool
use kv_rdma_poc.Server.EntryMap.{Key}
use kv_rdma_poc.Server.{
  Host, put_value, store_entry, release, transfer, get_and_transfer, delete_value,
}
use kv_rdma_poc.Server.Put.{after_put}
use kv_rdma_poc.Server.Consistent.{IsConsistent}
use kv_rdma_poc.Server.Serving.{IsServing, put_value-IsServing}
use kv_rdma_poc.Server.Fresh.{new-fresh, fresh-IsServing}
use kv_rdma_poc.Server.History.{Keeps, Trace, stays, calls, puts, deletes, perform}
use kv_rdma_poc.Server.History.Promise.{new_run-IsConsistent, get-put_run}
use kv_rdma_poc.Server.History.Race.{transfer_after_run, transfer_after_reuse}
use kv_rdma_poc.Examples.Setup.{entries, server_config, server_address, zeroed}
use kv_rdma_poc.Examples.ServerRuns.{booted, key_a, location_b, location_b-IsTarget}

pub booted-IsServing : IsServing booted
booted-IsServing =
    fresh-IsServing entries none server_config server_address zeroed refl (omega arith)
      (omega arith) (omega arith)

abbrev pub key_b : Key
key_b = 98 ∷ 99 ∷ []

pub key_b-ne : key_b ≢ key_a
key_b-ne e = omega (arith, ap (λ (k : Key). length k) e)

abbrev pub page : List ℕ
page = range_from 0 4096

pub one_page : Multiple 4096 (length page)
one_page = (1, length-range_from 0 4096)

pub booted_units : Multiple booted.memory_pool.allocator.alignment (length page)
booted_units = unfold Allocator.new in one_page

abbrev pub with_page : Host entries
with_page = (put_value entries key_a page 60 0 booted).1

pub page_stored : (put_value entries key_a page 60 0 booted).0 ≡ ok tt
unfolding put_value store_entry new_entry Pool.allocate Pool.allocated Pool.write Allocator.new
    Allocator.allocate Allocator.bump first_fit align_up range_from
page_stored = refl

-- The page is put, and another key is deleted.
new_run : Trace entries (λ _. Unit) booted (perform entries (deletes key_b) with_page)
new_run =
    calls (deletes key_b)
      (calls (puts key_a page 60 0) (stays refl) tt
        (omega (arith, length-range_from 0 4096), booted_units) refl)
      tt tt refl

new_run-IsConsistent_example : IsConsistent (perform entries (deletes key_b) with_page)
new_run-IsConsistent_example =
    new_run-IsConsistent entries none server_config server_address zeroed booted.server (λ _. Unit)
      (perform entries (deletes key_b) with_page) refl (omega arith) (omega arith) (omega arith)
      (new-fresh entries none server_config server_address zeroed refl (omega arith) (omega arith)
        (omega arith))
      new_run

kept_run : Trace entries (Keeps key_a 60 0) with_page (perform entries (deletes key_b) with_page)
kept_run = calls (deletes key_b) (stays refl) key_b-ne tt refl

get-put_run_example :
    ((get_and_transfer entries key_a location_b 5 (perform entries (deletes key_b) with_page)).0
      ≡ ok (length page))
    × (load
          (get_and_transfer entries key_a location_b 5
            (perform entries (deletes key_b) with_page)).1.memory
          5016
          (length page)
        ≡ page)
get-put_run_example =
    get-put_run entries key_a page 60 0 5 location_b booted
      (perform entries (deletes key_b) with_page) booted-IsServing
      (omega (arith, length-range_from 0 4096)) booted_units page_stored kept_run
      location_b-IsTarget (inr (omega arith))

pub with_page-IsServing : IsServing with_page
with_page-IsServing =
    put_value-IsServing entries key_a page 60 0 booted booted-IsServing
      (omega (arith, length-range_from 0 4096)) booted_units

abbrev pub page_entry : CacheEntry
page_entry = record { value = page; offset = 0; ttl_seconds = 60; created_at = 0 }

pub page_cached : with_page.cache key_a ≡ some page_entry
unfolding put_value store_entry new_entry Pool.allocate Pool.allocated Pool.write Allocator.new
    Allocator.allocate Allocator.bump first_fit align_up range_from
page_cached = refl

transfer_after_run_example :
    ((transfer entries page_entry location_b (perform entries (deletes key_b) with_page)).0
      ≡ ok (length page))
    × (load
          (transfer entries page_entry location_b
            (perform entries (deletes key_b) with_page)).1.memory
          5016
          (length page)
        ≡ page)
transfer_after_run_example =
    transfer_after_run entries key_a location_b page_entry with_page
      (perform entries (deletes key_b) with_page) with_page-IsServing page_cached kept_run
      location_b-IsTarget

abbrev pub other_page : List ℕ
other_page = range_from 7 4096

abbrev emptied : Host entries
emptied = (delete_value entries key_a with_page).1

abbrev emptied_pool : BumpAllocator
emptied_pool = record { offset = 4096; capacity = 16384; alignment = 4096; free_list = [] }

emptied_units : Multiple emptied.memory_pool.allocator.alignment (length other_page)
unfolding delete_value release put_value store_entry new_entry Pool.allocate Pool.allocated
    Pool.write Pool.deallocate Allocator.deallocate Allocator.new Allocator.allocate Allocator.bump
    first_fit align_up range_from
emptied_units = (1, refl)

reused :
    put_value entries key_b other_page 60 5 emptied
    ≡ (ok tt, after_put entries key_b other_page 60 5 emptied 0 emptied_pool)
unfolding delete_value release put_value after_put store_entry new_entry Pool.allocate
    Pool.allocated Pool.write Pool.deallocate Allocator.deallocate Allocator.new Allocator.allocate
    Allocator.bump Allocator.reuse Allocator.give_back first_fit align_up range_from FreeList.insert
    FreeList.get FreeList.without
reused = refl

transfer_after_reuse_example :
    ((transfer entries page_entry location_b (put_value entries key_b other_page 60 5 emptied).1).0
      ≡ ok (length page))
    × (load
          (transfer entries page_entry location_b
            (put_value entries key_b other_page 60 5 emptied).1).1.memory
          5016
          (length page)
        ≡ other_page)
transfer_after_reuse_example =
    transfer_after_reuse entries key_a key_b other_page 60 5 location_b page_entry with_page
      emptied_pool with_page-IsServing (omega (arith, length-range_from 7 4096)) emptied_units
      (length-range_from 0 4096 ∙ sym (length-range_from 7 4096)) reused location_b-IsTarget
