-- ===== src/Server/Delete.antt =====
-- `delete_value` of src/server.rs.
use kv_rdma_poc.Shared.{
  ◌≡◌, ◌≢◌, refl, sym, ◌∙◌, inl, inr, Option, some, none, arith, true, false, Option-cases, Bool,
}
use kv_rdma_poc.Protocol.{CacheEntry, len}
use kv_rdma_poc.Memory.Allocator.{deallocate}
use kv_rdma_poc.Memory.Pool
use kv_rdma_poc.Server.EntryMap.{DashMap, Key}
use kv_rdma_poc.Server.{Host, release, delete_value}
use kv_rdma_poc.Server.Consistent.{IsConsistent}
use kv_rdma_poc.Server.Put.{freed}
use kv_rdma_poc.Server.Stored.{
  held_owned, held_apart, cover-freed_list, freed-IsWellFormed, Key-discrete, inside-le_one,
}

abbrev pub is_some : Option CacheEntry → Bool
is_some none = false
is_some (some e) = true

module _ (D : DashMap) (key : Key) (h : Host D) where
  unfoldable pub after_delete : Host D
  after_delete = record h {
    server = record h.server {
      memory_pool = record h.memory_pool {
        allocator = freed (D.get key h.cache) h.memory_pool.allocator;
      };
      cache = (D.remove key h.cache).1;
    };
  }

  -- Whether the key was there, and the host with its memory given back.
  pub delete_value_lem : delete_value D key h ≡ (is_some (D.get key h.cache), after_delete)
  unfolding delete_value release after_delete Pool.deallocate deallocate len
  delete_value_lem = elim (Option-cases (D.get key h.cache)) [
    | inl e ↦ rw (D.remove_old key h.cache, e, delete_value) refl
    | inr (old, e) ↦ rw (D.remove_old key h.cache, e, delete_value) refl
  ]

  module _ (s : IsConsistent h) where
    left :
        (k : Key) (e : CacheEntry)
        → D.get k (D.remove key h.cache).1 ≡ some e
        → (key ≢ k) × (D.get k h.cache ≡ some e)
    left k e g = elim (Key-discrete key k) [
      | yes same ↦ absurd (gone same)
      | no other ↦ (other, sym (D.get-remove_ne key k h.cache other) ∙ g)
    ]
      where
        gone : key ≡ k → ⊥
        gone same = cc (D.get-remove_self key h.cache)

    -- From a consistent host, a delete ends in a consistent host, whether the key was there or
    -- not.
    pub delete_value-IsConsistent : IsConsistent (delete_value D key h).1
    delete_value-IsConsistent = rw delete_value_lem (
        unfold after_delete in
        record {
          registered = record {
            well_formed =
                freed-IsWellFormed h s key (D.get key h.cache) h.memory_pool.allocator refl
                  (omega arith) s.registered.well_formed;
            whole = s.registered.whole;
            base = s.registered.base;
            not_null = s.registered.not_null;
            addressed = s.registered.addressed;
          };
          free = λ x. omega (
            arith,
            held_owned h s key x (D.get key h.cache) refl,
            cover-freed_list x (D.get key h.cache) h.memory_pool.allocator.free_list,
          );
          bytes = λ k e g. s.bytes k e (left k e g).1;
          bound = λ k e g. s.bound k e (left k e g).1;
          owned = λ k e x g. omega (
            arith,
            held_apart h s key x (D.get key h.cache) k e (left k e g).0 refl (left k e g).1,
            cover-freed_list x (D.get key h.cache) h.memory_pool.allocator.free_list,
          );
          apart = λ k j e f x ne g g'. omega (
            arith,
            held_apart h s key x (D.get key h.cache) k e (left k e g).0 refl (left k e g).1,
            held_apart h s key x (D.get key h.cache) j f (left j f g').0 refl (left j f g').1,
            s.apart k j e f x ne (left k e g).1 (left j f g').1,
            inside-le_one x h.memory_pool.allocator.offset,
            cover-freed_list x (D.get key h.cache) h.memory_pool.allocator.free_list,
          );
        })
