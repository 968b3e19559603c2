-- ===== src/Server/Get.antt =====
-- `get_and_transfer` of src/server.rs.
pub mod Overrun
use kv_rdma_poc.Shared.{
  ℕ, ◌+◌, ◌*◌, ◌^◌, ◌≤◌, ◌<◌, ◌≡◌, refl, sym, ◌∙◌, ◌⊎◌, inl, inr, List, some, none, arith, length,
  ok, err, true, false, Option-cases,
}
use kv_rdma_poc.Shared.Word.{word}
use kv_rdma_poc.Message.{status, pool_exhausted, not_found, key_not_found, key_expired}
use kv_rdma_poc.Protocol.{ValueLocation, CacheEntry, is_expired, len}
use kv_rdma_poc.Memory.Bytes.{load, copy, load-copy, load-copy_ne}
use kv_rdma_poc.Memory.FreeList.{cover}
use kv_rdma_poc.Memory.Allocator.{BumpAllocator}
use kv_rdma_poc.Memory.Allocator.Conserve.{max_len}
use kv_rdma_poc.Memory.Allocator.Sound.{CanServe}
use kv_rdma_poc.Transport.{TransferResult}
use kv_rdma_poc.Transport.Mock.Copies.{IsAddressed, Delivers}
use kv_rdma_poc.Server.EntryMap.{DashMap, Key}
use kv_rdma_poc.Server.{Host, set_cache, transfer_request, transfer, get_and_transfer, put_value}
use kv_rdma_poc.Server.Consistent.{holds, IsRegistered, IsConsistent}
use kv_rdma_poc.Server.Put.{after_put, entry_at, put_value_cases}
use kv_rdma_poc.Server.Stored.{Key-discrete, inside-le_one, held, after_put-IsConsistent}

-- The address that the client asked the value to be written to.
abbrev pub target : ValueLocation → ℕ
target loc = loc.mr_descriptor.ptr + loc.offset

pub record IsTarget (loc : ValueLocation) : Type 0 where
  pub not_null : 0 < loc.mr_descriptor.ptr
  pub fits : target loc < word

module _ (D : DashMap) (key : Key) (loc : ValueLocation) (now : ℕ) (h : Host D) where
  -- The host after the bytes of `e` have been copied to the target.
  abbrev pub after_transfer : CacheEntry → Host D
  after_transfer e = record h {
    memory = copy h.memory (h.memory_pool.buffer + e.offset) (target loc) (length e.value);
  }

  -- The bytes of an entry are copied to the target, and their number returned.
  pub transfer_copies :
      (e : CacheEntry)
      → IsRegistered h.memory_pool
      → Delivers h.transport.inner
      → IsTarget loc
      → e.offset + length e.value ≤ h.memory_pool.allocator.offset
      → transfer D e loc h ≡ (ok (length e.value), after_transfer e)
  unfolding transfer len
  transfer_copies e r t l bound = sent (t.delivers (transfer_request D h e loc) h.memory addressed)
    where
      addressed : IsAddressed (transfer_request D h e loc)
      addressed = record {
        src_pos = omega (arith, r.base, r.not_null);
        dst_pos = l.not_null;
        src_fits = omega (arith, r.base, r.addressed, r.whole, r.well_formed.bounded, bound);
        dst_fits = l.fits;
      }

      sent :
          (result : TransferResult) × (h.transport.inner.submit_transfer_async
                (transfer_request D h e loc)
                h.memory
              ≡ (
                ok result,
                copy h.memory (h.memory_pool.handle.ptr + e.offset) (target loc) (length e.value),
              ))
            × (result.success ≡ true)
          → transfer D e loc h ≡ (ok (length e.value), after_transfer e)
      sent (result, eq, good) = rw (eq, good, r.base) refl

  -- A live entry is transferred.
  pub get_and_transfer_found :
      (e : CacheEntry)
      → IsConsistent h
      → Delivers h.transport.inner
      → IsTarget loc
      → D.get key h.cache ≡ some e
      → is_expired e now ≡ false
      → get_and_transfer D key loc now h ≡ (ok (length e.value), after_transfer e)
  unfolding get_and_transfer
  get_and_transfer_found e s t l found live =
      rw (found, get_and_transfer)
        (rw live (transfer_copies e s.registered t l (s.bound key e found)))

  -- On a consistent server whose transport delivers, a get of a live entry, with a target that is
  -- not null and does not wrap round, reports the length of the value, writes the value to the
  -- target, leaves a range beside the target as it was, and leaves the server as it was.
  pub get_arrives :
      (e : CacheEntry) (p n : ℕ)
      → IsConsistent h
      → Delivers h.transport.inner
      → IsTarget loc
      → D.get key h.cache ≡ some e
      → is_expired e now ≡ false
      → (p + n ≤ target loc) ⊎ (target loc + length e.value ≤ p)
      → let h' = (get_and_transfer D key loc now h).1 in
        ((get_and_transfer D key loc now h).0 ≡ ok (length e.value))
        × (load h'.memory (target loc) (length e.value) ≡ e.value)
        × (load h'.memory p n ≡ load h.memory p n)
        × (h'.server ≡ h.server)
  get_arrives e p n s t l found live apart = rw (get_and_transfer_found e s t l found live) (
    refl,
    load-copy h.memory (h.memory_pool.buffer + e.offset) (target loc) (length e.value)
        ∙ s.bytes key e found,
    load-copy_ne h.memory (h.memory_pool.buffer + e.offset) (target loc) (length e.value) p n apart,
    refl,
  )

  -- A key that is not in the map is not found, and nothing changes.
  pub get_missing :
      D.get key h.cache ≡ none
      → get_and_transfer D key loc now h ≡ (err (status not_found key_not_found), h)
  unfolding get_and_transfer
  get_missing missing = rw (missing, get_and_transfer) refl

  pub get_expired :
      (e : CacheEntry)
      → D.get key h.cache ≡ some e
      → is_expired e now ≡ true
      → get_and_transfer D key loc now h
        ≡ (err (status not_found key_expired), set_cache D (D.remove key h.cache).1 h)
  unfolding get_and_transfer
  get_expired e found dead = rw (found, get_and_transfer) (rw dead refl)

-- A transfer to addresses outside the pool keeps the invariant.
pub after_transfer-IsConsistent :
    (D : DashMap) (key : Key) (loc : ValueLocation) (now : ℕ) (h : Host D) (e : CacheEntry)
    → IsConsistent h
    → (target loc + length e.value ≤ h.memory_pool.buffer)
      ⊎ (h.memory_pool.buffer + h.memory_pool.buffer_len ≤ target loc)
    → IsConsistent (after_transfer D key loc now h e)
after_transfer-IsConsistent D key loc now h e s outside = record {
  registered = s.registered;
  free = s.free;
  bytes = λ k f found.
      load-copy_ne h.memory (h.memory_pool.buffer + e.offset) (target loc) (length e.value)
        (h.memory_pool.buffer + f.offset) (length f.value)
        (ground (arith, s.bound k f found, s.registered.whole, s.registered.well_formed.bounded))
      ∙ s.bytes k f found;
  bound = s.bound;
  owned = s.owned;
  apart = s.apart;
}

-- On a consistent server, a get of an expired entry loses the memory of the entry: the pool stays
-- as it was, and a byte that the entry held is afterwards in no free block and in no entry of the
-- map.
pub get_expired_leaks :
    (D : DashMap) (key : Key) (loc : ValueLocation) (now : ℕ) (h : Host D) (e : CacheEntry) (x : ℕ)
    (j : Key)
    → IsConsistent h
    → D.get key h.cache ≡ some e
    → is_expired e now ≡ true
    → holds x e ≡ 1
    → let h' = (get_and_transfer D key loc now h).1 in
      (h'.memory_pool ≡ h.memory_pool)
      × (cover x h'.memory_pool.allocator.free_list ≡ 0)
      × (held x (D.get j h'.cache) ≡ 0)
get_expired_leaks D key loc now h e x j s found dead in_e =
    rw (get_expired D key loc now h e found dead) (
      refl,
      omega (arith, s.owned key e x found, inside-le_one x h.memory_pool.allocator.offset),
      elim (Option-cases (D.get j (D.remove key h.cache).1)) [
        | inl gone ↦ rw gone refl
        | inr (f, kept) ↦ rw kept (elim (Key-discrete key j) [
          | yes same ↦ absurd (none_kept f same kept)
          | no other ↦ omega (
            arith,
            s.apart key j e f x other found (sym (D.get-remove_ne key j h.cache other) ∙ kept),
            inside-le_one x h.memory_pool.allocator.offset,
          )
        ])
      ],
    )
  where
    none_kept : (f : CacheEntry) → key ≡ j → D.get j (D.remove key h.cache).1 ≡ some f → ⊥
    none_kept f same kept = cc (D.get-remove_self key h.cache)

-- On a consistent server whose transport delivers, what a successful put stored, of at most
-- max_len bytes that the free blocks can serve, is what a get of the key delivers to a target that
-- is not null and does not wrap round, any time before the entry expires.
pub get-put_self :
    (D : DashMap) (key : Key) (value : List ℕ) (ttl_seconds now later : ℕ) (loc : ValueLocation)
    (h : Host D)
    → IsConsistent h
    → Delivers h.transport.inner
    → IsTarget loc
    → length value ≤ max_len
    → CanServe h.memory_pool.allocator (length value)
    → (put_value D key value ttl_seconds now h).0 ≡ ok tt
    → (ttl_seconds ≡ 0) ⊎ (later < now + ttl_seconds * 10 ^ 9)
    → let r = get_and_transfer D key loc later (put_value D key value ttl_seconds now h).1 in
      (r.0 ≡ ok (length value)) × (load r.1.memory (target loc) (length value) ≡ value)
get-put_self D key value ttl_seconds now later loc h s t l small fits done live =
    elim (put_value_cases D key value ttl_seconds now h s.registered small fits) [
      | inl (refused, _, _) ↦ absurd (ok_or_refused refused)
      | inr (offset, b, stored, c, _) ↦ rw stored (
          delivered offset b (
            get_arrives D key loc later (after_put D key value ttl_seconds now h offset b)
              (entry_at D key value ttl_seconds now h offset) 0 0
              (after_put-IsConsistent D key value ttl_seconds now h s offset b c)
              (unfold after_put in t) l (self offset b) (not_expired offset) (inl (omega arith))))
    ]
  where
    ok_or_refused : put_value D key value ttl_seconds now h ≡ (err pool_exhausted, h) → ⊥
    ok_or_refused refused = cc

    self :
        (offset : ℕ) (b : BumpAllocator)
        → D.get key (after_put D key value ttl_seconds now h offset b).cache
          ≡ some (entry_at D key value ttl_seconds now h offset)
    self offset b =
        unfold after_put in
        D.get-insert_self key (entry_at D key value ttl_seconds now h offset) h.cache

    not_expired :
        (offset : ℕ) → is_expired (entry_at D key value ttl_seconds now h offset) later ≡ false
    not_expired offset = unfold is_expired in ground arith

    delivered :
        (offset : ℕ) (b : BumpAllocator)
        → let h' = after_put D key value ttl_seconds now h offset b in
          let r = get_and_transfer D key loc later h' in
          (r.0 ≡ ok (length value))
            × (load r.1.memory (target loc) (length value) ≡ value)
            × (load r.1.memory 0 0 ≡ load h'.memory 0 0)
            × (r.1.server ≡ h'.server)
          → (r.0 ≡ ok (length value)) × (load r.1.memory (target loc) (length value) ≡ value)
    delivered offset b (length_ok, bytes_ok, _, _) = (length_ok, bytes_ok)
