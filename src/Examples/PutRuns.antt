-- ===== src/Examples/PutRuns.antt =====
-- The theorems on the client's `put` at concrete inputs.
use kv_rdma_poc.Shared.{◌≡◌, refl, inr, arith, ok}
use kv_rdma_poc.Shared.Text.{length-range_from}
use kv_rdma_poc.Server.{KvCacheServer, put_value}
use kv_rdma_poc.Client.{Process, get_pending, get, put}
use kv_rdma_poc.Client.Get.Local.{host, local_stub}
use kv_rdma_poc.Client.Put.{reading_at, put_outcome, put_local, get-put_local}
use kv_rdma_poc.Examples.Setup.{entries}
use kv_rdma_poc.Examples.ServerRuns.{booted, key_a}
use kv_rdma_poc.Examples.ClientRuns.{client_of, pool_at, pool-IsReceiving, given}
use kv_rdma_poc.Examples.Histories.{page, booted-IsServing, booted_units, page_stored}

abbrev pub at_start : Process (KvCacheServer entries)
at_start = record {
  client = client_of (local_stub entries 0);
  remote = booted.server;
  memory = booted.memory;
}

put_local_example :
    put key_a page 60 at_start
    ≡ put_outcome entries 0 key_a page 60 at_start
        (put_value entries key_a page 60 0 (host entries booted.server booted.memory))
put_local_example =
    put_local entries 0 key_a page 60 at_start refl (omega (arith, length-range_from 0 4096))

get-put_local_example :
    ((put key_a page 60 at_start).0 ≡ ok tt)
    × ((get key_a (reading_at entries 5 (put key_a page 60 at_start).1)).0 ≡ ok page)
unfolding get_pending
get-put_local_example =
    get-put_local entries 0 key_a page 60 at_start 5 0 (pool_at 1048576).allocator refl
      booted-IsServing (omega (arith, length-range_from 0 4096)) booted_units page_stored
      pool-IsReceiving (inr (omega arith)) refl given (inr (omega arith))
