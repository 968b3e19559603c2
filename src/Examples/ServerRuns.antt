-- ===== src/Examples/ServerRuns.antt =====
-- The theorems on the server at concrete inputs.
use kv_rdma_poc.Shared.{ℕ, ◌<◌, ◌≡◌, ◌⊎◌, refl, ap, inr, List, [], ◌∷◌, none, some, arith, ok, err}
use kv_rdma_poc.Message.{pool_exhausted}
use kv_rdma_poc.Protocol.{ValueLocation, CacheEntry, is_expired, new_entry}
use kv_rdma_poc.Memory.Bytes.{load, store}
use kv_rdma_poc.Memory.FreeList.{cover}
use kv_rdma_poc.Memory.Align.{align_up}
use kv_rdma_poc.Memory.Allocator
use kv_rdma_poc.Memory.Allocator.{BumpAllocator, first_fit}
use kv_rdma_poc.Memory.Allocator.Cases.{Served}
use kv_rdma_poc.Memory.Allocator.Sound.{IsConserving, CanServe}
use kv_rdma_poc.Memory.Pool
use kv_rdma_poc.Shared.Word.{add64}
use kv_rdma_poc.Transport.Mock
use kv_rdma_poc.Transport.Mock.Copies.{Delivers, mock-Delivers}
use kv_rdma_poc.Server.EntryMap.{Key}
use kv_rdma_poc.Server.{Host, put_value, store_entry, get_and_transfer}
use kv_rdma_poc.Server.Consistent.{IsConsistent}
use kv_rdma_poc.Server.Put.{after_put, put_value_cases}
use kv_rdma_poc.Server.Stored.{held, put_value-IsConsistent}
use kv_rdma_poc.Server.Get.{IsTarget, get_arrives, get_expired_leaks, get-put_self}
use kv_rdma_poc.Server.Fresh.{node_config, fresh, fresh-IsConsistent}
use kv_rdma_poc.Examples.Setup.{entries, assign, server_config, server_address, zeroed}

abbrev pub booted : Host entries
booted = record { server = fresh entries server_config server_address; memory = zeroed }

pub booted-IsConsistent : IsConsistent booted
booted-IsConsistent =
    fresh-IsConsistent entries none server_config server_address zeroed refl (omega arith)
      (omega arith) (omega arith)

pub booted-Delivers : Delivers booted.transport.inner
booted-Delivers = mock-Delivers (Mock.new (node_config entries server_config server_address))

abbrev pub key_a : Key
key_a = 97 ∷ []

abbrev pub value_a : List ℕ
value_a = 7 ∷ 8 ∷ []

abbrev pub entry_a : CacheEntry
entry_a = record { value = value_a; offset = 0; ttl_seconds = 60; created_at = 0 }

booted-CanServe : CanServe booted.memory_pool.allocator 2
booted-CanServe = unfold Allocator.new in tt

put_value_cases_example :
    ((put_value entries key_a value_a 60 0 booted ≡ (err pool_exhausted, booted))
      × (first_fit 2 booted.memory_pool.allocator.free_list ≡ none)
      × (booted.memory_pool.allocator.capacity
          < add64
              (align_up booted.memory_pool.allocator.alignment booted.memory_pool.allocator.offset)
              2))
    ⊎ ((offset : ℕ) × (b : BumpAllocator) × (put_value entries key_a value_a 60 0 booted
          ≡ (ok tt, after_put entries key_a value_a 60 0 booted offset b))
        × IsConserving 2 booted.memory_pool.allocator (some offset) b
        × Served 2 booted.memory_pool.allocator (some offset) b)
put_value_cases_example =
    put_value_cases entries key_a value_a 60 0 booted booted-IsConsistent.registered (omega arith)
      booted-CanServe

-- The server with the value in it.
abbrev pub stored : Host entries
stored = record {
  server = record booted.server {
    memory_pool = record booted.memory_pool {
      allocator = record { offset = 2; capacity = 16384; alignment = 4096; free_list = [] };
    };
    cache = assign key_a (some entry_a) (λ _. none);
  };
  memory = store zeroed server_address value_a;
}

put_stored : put_value entries key_a value_a 60 0 booted ≡ (ok tt, stored)
unfolding put_value store_entry new_entry Pool.allocate Pool.allocated Pool.write Allocator.new
    Allocator.allocate Allocator.bump first_fit align_up
put_stored = refl

pub stored-IsConsistent : IsConsistent stored
stored-IsConsistent = rw put_stored at (
    put_value-IsConsistent entries key_a value_a 60 0 booted booted-IsConsistent (omega arith)
      booted-CanServe)

abbrev pub location_b : ValueLocation
location_b = record {
  node_id = 3;
  mr_descriptor = record { ptr = 5000; addr_rkey_list = [] };
  offset = 16;
  length = 32;
}

pub location_b-IsTarget : IsTarget location_b
location_b-IsTarget = record { not_null = omega arith; fits = omega arith }

get_arrives_example :
    ((get_and_transfer entries key_a location_b 5 stored).0 ≡ ok 2)
    × (load (get_and_transfer entries key_a location_b 5 stored).1.memory 5016 2 ≡ value_a)
    × (load (get_and_transfer entries key_a location_b 5 stored).1.memory 5018 4
        ≡ load stored.memory 5018 4)
    × ((get_and_transfer entries key_a location_b 5 stored).1.server ≡ stored.server)
unfolding is_expired
get_arrives_example =
    get_arrives entries key_a location_b 5 stored entry_a 5018 4 stored-IsConsistent booted-Delivers
      location_b-IsTarget refl refl (inr (omega arith))

-- At 60 seconds the entry has expired.
get_expired_leaks_example :
    ((get_and_transfer entries key_a location_b 60000000000 stored).1.memory_pool
      ≡ stored.memory_pool)
    × (cover 1
          (get_and_transfer entries key_a location_b 60000000000
            stored).1.memory_pool.allocator.free_list
        ≡ 0)
    × (held 1 ((get_and_transfer entries key_a location_b 60000000000 stored).1.cache key_a) ≡ 0)
unfolding is_expired
get_expired_leaks_example =
    get_expired_leaks entries key_a location_b 60000000000 stored entry_a 1 key_a
      stored-IsConsistent refl refl refl

get-put_self_example :
    ((get_and_transfer entries key_a location_b 5 (put_value entries key_a value_a 60 0 booted).1).0
      ≡ ok 2)
    × (load
          (get_and_transfer entries key_a location_b 5
            (put_value entries key_a value_a 60 0 booted).1).1.memory
          5016
          2
        ≡ value_a)
get-put_self_example =
    get-put_self entries key_a value_a 60 0 5 location_b booted booted-IsConsistent booted-Delivers
      location_b-IsTarget (omega arith) booted-CanServe (ap (λ r. r.0) put_stored)
      (inr (omega arith))
