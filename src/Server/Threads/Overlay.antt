-- ===== src/Server/Threads/Overlay.antt =====
-- The entries of tasks that are storing or freeing a block, as entries of a larger map, so that
-- what holds of a server that makes one call after another holds of the blocks of the tasks, too.
use mathlib.Core.Logic.{ite, if_pos, if_neg}
use mathlib.Core.Option
use kv_rdma_poc.Shared.{ℕ, zero, suc, ◌≡◌, ◌≢◌, refl, sym, ap, ◌∙◌, [], ◌∷◌, Option, none, some}
use kv_rdma_poc.Protocol.{CacheEntry}
use kv_rdma_poc.Server.EntryMap.{DashMap, Key}
use kv_rdma_poc.Server.{Host}
use kv_rdma_poc.Server.Stored.{Key-discrete}
use kv_rdma_poc.Server.Serving.{IsServing}

-- The blocks beside the map.
abbrev pub Side : Type 0
Side = Key → Option CacheEntry

abbrev pub assign : Key → Option CacheEntry → Side → Side
assign k o g j = ite (Key-discrete k j) o (g j)

pub assign_self : (k : Key) (o : Option CacheEntry) (g : Side) → assign k o g k ≡ o
assign_self k o g = if_pos (Key-discrete k k) refl o (g k)

pub assign_ne : (k j : Key) (o : Option CacheEntry) (g : Side) → k ≢ j → assign k o g j ≡ g j
assign_ne k j o g ne = if_neg (Key-discrete k j) ne o (g j)

-- Keys of the map, and keys of tasks.
abbrev pub of_map : Key → Key
of_map k = zero ∷ k

abbrev pub of_task : ℕ → Key
of_task i = suc i ∷ []

module _ (D : DashMap) where
  abbrev pub get_over : Key → D.Map × Side → Option CacheEntry
  get_over [] (m, g) = g []
  get_over (zero ∷ k) (m, g) = D.get k m
  get_over (suc n ∷ k) (m, g) = g (suc n ∷ k)

  abbrev pub insert_over : Key → CacheEntry → D.Map × Side → Option CacheEntry × (D.Map × Side)
  insert_over [] e (m, g) = (g [], (m, assign [] (some e) g))
  insert_over (zero ∷ k) e (m, g) = ((D.insert k e m).0, ((D.insert k e m).1, g))
  insert_over (suc n ∷ k) e (m, g) = (g (suc n ∷ k), (m, assign (suc n ∷ k) (some e) g))

  abbrev pub without : Key → D.Map × Side → D.Map × Side
  without [] (m, g) = (m, assign [] none g)
  without (zero ∷ k) (m, g) = ((D.remove k m).1, g)
  without (suc n ∷ k) (m, g) = (m, assign (suc n ∷ k) none g)

  pub get-empty_over : (k : Key) → get_over k (D.empty, λ _. none) ≡ none
  get-empty_over [] = refl
  get-empty_over (zero ∷ k) = D.get-empty k
  get-empty_over (suc n ∷ k) = refl

  pub insert_old_over :
      (k : Key) (e : CacheEntry) (m : D.Map × Side) → (insert_over k e m).0 ≡ get_over k m
  insert_old_over [] e (m, g) = refl
  insert_old_over (zero ∷ k) e (m, g) = D.insert_old k e m
  insert_old_over (suc n ∷ k) e (m, g) = refl

  pub get-insert_self_over :
      (k : Key) (e : CacheEntry) (m : D.Map × Side) → get_over k (insert_over k e m).1 ≡ some e
  get-insert_self_over [] e (m, g) = assign_self [] (some e) g
  get-insert_self_over (zero ∷ k) e (m, g) = D.get-insert_self k e m
  get-insert_self_over (suc n ∷ k) e (m, g) = assign_self (suc n ∷ k) (some e) g

  pub get-insert_ne_over :
      (k j : Key) (e : CacheEntry) (m : D.Map × Side)
      → k ≢ j
      → get_over j (insert_over k e m).1 ≡ get_over j m
  get-insert_ne_over [] [] e (m, g) ne = absurd (ne refl)
  get-insert_ne_over [] (zero ∷ j) e (m, g) ne = refl
  get-insert_ne_over [] (suc n ∷ j) e (m, g) ne = assign_ne [] (suc n ∷ j) (some e) g ne
  get-insert_ne_over (zero ∷ k) [] e (m, g) ne = refl
  get-insert_ne_over (zero ∷ k) (zero ∷ j) e (m, g) ne =
      D.get-insert_ne k j e m (λ same. ne (ap of_map same))
  get-insert_ne_over (zero ∷ k) (suc n ∷ j) e (m, g) ne = refl
  get-insert_ne_over (suc n ∷ k) [] e (m, g) ne = assign_ne (suc n ∷ k) [] (some e) g ne
  get-insert_ne_over (suc n ∷ k) (zero ∷ j) e (m, g) ne = refl
  get-insert_ne_over (suc n ∷ k) (suc l ∷ j) e (m, g) ne =
      assign_ne (suc n ∷ k) (suc l ∷ j) (some e) g ne

  pub get-without_self : (k : Key) (m : D.Map × Side) → get_over k (without k m) ≡ none
  get-without_self [] (m, g) = assign_self [] none g
  get-without_self (zero ∷ k) (m, g) = D.get-remove_self k m
  get-without_self (suc n ∷ k) (m, g) = assign_self (suc n ∷ k) none g

  pub get-without_ne :
      (k j : Key) (m : D.Map × Side) → k ≢ j → get_over j (without k m) ≡ get_over j m
  get-without_ne [] [] (m, g) ne = absurd (ne refl)
  get-without_ne [] (zero ∷ j) (m, g) ne = refl
  get-without_ne [] (suc n ∷ j) (m, g) ne = assign_ne [] (suc n ∷ j) none g ne
  get-without_ne (zero ∷ k) [] (m, g) ne = refl
  get-without_ne (zero ∷ k) (zero ∷ j) (m, g) ne =
      D.get-remove_ne k j m (λ same. ne (ap of_map same))
  get-without_ne (zero ∷ k) (suc n ∷ j) (m, g) ne = refl
  get-without_ne (suc n ∷ k) [] (m, g) ne = assign_ne (suc n ∷ k) [] none g ne
  get-without_ne (suc n ∷ k) (zero ∷ j) (m, g) ne = refl
  get-without_ne (suc n ∷ k) (suc l ∷ j) (m, g) ne = assign_ne (suc n ∷ k) (suc l ∷ j) none g ne

  abbrev pub overlay : DashMap
  overlay = record {
    Map = D.Map × Side;
    empty = (D.empty, λ _. none);
    get = get_over;
    insert = insert_over;
    remove = λ k m. (Option.map (λ e. (k, e)) (get_over k m), without k m);
    get-empty = get-empty_over;
    insert_old = insert_old_over;
    get-insert_self = get-insert_self_over;
    get-insert_ne = get-insert_ne_over;
    remove_old = λ k m. refl;
    get-remove_self = get-without_self;
    get-remove_ne = get-without_ne;
  }

-- The same host with another map.
abbrev pub relocate : {D E : DashMap} → Host D → E.Map → Host E
relocate h cache = record {
  server = record {
    config = h.config;
    transport = h.transport;
    memory_pool = h.memory_pool;
    cache = cache;
    clients = h.clients;
  };
  memory = h.memory;
}

abbrev pub mirror : {D : DashMap} → Host D → Side → Host (overlay D)
mirror {D} h g = relocate {E = overlay D} h (h.cache, g)

-- A map whose entries all stand in the first map, at keys of their own, serves where it does.
pub relocate-IsServing :
    {D E : DashMap} (h : Host D) (cache : E.Map) (f : Key → Key)
    → ((k : Key) (e : CacheEntry) → E.get k cache ≡ some e → D.get (f k) h.cache ≡ some e)
    → ((k j : Key) (e d : CacheEntry)
        → k ≢ j
        → E.get k cache ≡ some e
        → E.get j cache ≡ some d
        → f k ≢ f j)
    → IsServing h
    → IsServing (relocate {E = E} h cache)
relocate-IsServing h cache f there apart s = record {
  consistent = record {
    registered = s.consistent.registered;
    free = s.consistent.free;
    bytes = λ k e g. s.consistent.bytes (f k) e (there k e g);
    bound = λ k e g. s.consistent.bound (f k) e (there k e g);
    owned = λ k e x g. s.consistent.owned (f k) e x (there k e g);
    apart = λ k j e d x ne g g'.
        s.consistent.apart (f k) (f j) e d x (apart k j e d ne g g') (there k e g) (there j d g');
  };
  delivers = s.delivers;
  free_units = s.free_units;
  entry_units = λ k e g. s.entry_units (f k) e (there k e g);
}

-- An entry that goes to another key, while all others stay.
module _ (E : DashMap) (h : Host E) (cache : E.Map) (a b : Key)
    (taken : (e : CacheEntry) → E.get b cache ≡ some e → E.get a h.cache ≡ some e)
    (gone : E.get a cache ≡ none)
    (rest : (k : Key) → a ≢ k → b ≢ k → E.get k cache ≡ E.get k h.cache) where
  origin : Key → Key
  origin k = ite (Key-discrete b k) a k

  there : (k : Key) (e : CacheEntry) → E.get k cache ≡ some e → E.get (origin k) h.cache ≡ some e
  unfolding origin
  there k e g = elim (Key-discrete b k) [
    | yes same ↦
        rw (if_pos (Key-discrete b k) same a k) (taken e (ap (λ x. E.get x cache) same ∙ g))
    | no other ↦ rw (if_neg (Key-discrete b k) other a k) (sym (rest k not_a other) ∙ g)
  ]
    where
      not_a : a ≢ k
      not_a same = cc

  apart :
      (k j : Key) (e d : CacheEntry)
      → k ≢ j
      → E.get k cache ≡ some e
      → E.get j cache ≡ some d
      → origin k ≢ origin j
  unfolding origin
  apart k j e d ne g g' = elim (Key-discrete b k) [
    | yes k_b ↦ elim (Key-discrete b j) [
      | yes j_b ↦ absurd (ne (sym k_b ∙ j_b))
      | no j_other ↦
          rw (if_pos (Key-discrete b k) k_b a k, if_neg (Key-discrete b j) j_other a j)
            (λ (same : a ≡ j). cc)
    ]
    | no k_other ↦ elim (Key-discrete b j) [
      | yes j_b ↦
          rw (if_neg (Key-discrete b k) k_other a k, if_pos (Key-discrete b j) j_b a j)
            (λ (same : k ≡ a). cc)
      | no j_other ↦
          rw (if_neg (Key-discrete b k) k_other a k, if_neg (Key-discrete b j) j_other a j) ne
    ]
  ]

  pub move-IsServing : IsServing h → IsServing (relocate {E = E} h cache)
  move-IsServing = relocate-IsServing h cache origin there apart
