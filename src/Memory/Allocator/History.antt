-- ===== src/Memory/Allocator/History.antt =====
-- Histories of calls on the allocator, as its two users make them.
use kv_rdma_poc.Shared.{ℕ, ◌+◌, ◌≤◌, ◌≡◌, refl, Option, none, some, [], ◌∷◌, ◌++◌, arith, All, ok}
use kv_rdma_poc.Memory.FreeList.{FreeList, cover, All-insert}
use kv_rdma_poc.Memory.Align.{IsAlignment, Multiple}
use kv_rdma_poc.Memory.Allocator.{BumpAllocator, new, allocate, deallocate}
use kv_rdma_poc.Memory.Allocator.Cases.{Served, Served-of_allocate}
use kv_rdma_poc.Memory.Allocator.Conserve.{max_len, IsWithin}
use kv_rdma_poc.Memory.Allocator.Sound.{IsConserving, Served-IsConserving, IsWithin-mono}
use kv_rdma_poc.Memory.Allocator.Live.{IsSound, grant, cover-grant, new-IsSound, deallocate-IsSound}
use kv_rdma_poc.Memory.Allocator.Granular.{
  IsUnits, IsGranular, granular-CanServe, Served-Multiple, Served-IsGranular,
}

-- One call: a request for whole units of the alignment, or the return of a live block.
pub data Step (a : BumpAllocator) (live : FreeList) : BumpAllocator → FreeList → Type 0 where
  allocates :
      {b : BumpAllocator} {live' : FreeList} (size : ℕ) (o : Option ℕ)
      → size ≤ max_len
      → Multiple a.alignment size
      → allocate {E = ⊥} size a ≡ (ok o, b)
      → live' ≡ grant o size live
      → Step a live b live'
  frees :
      {b : BumpAllocator} {live' : FreeList} (offset size : ℕ) (before after : FreeList)
      → live ≡ before ++ ((offset, size) ∷ after)
      → b ≡ deallocate offset size a
      → live' ≡ before ++ after
      → Step a live b live'

pub data Reach (capacity alignment : ℕ) : BumpAllocator → FreeList → Type 0 where
  start :
      {a : BumpAllocator} {live : FreeList}
      → a ≡ new capacity alignment
      → live ≡ []
      → Reach capacity alignment a live
  next :
      {a b : BumpAllocator} {live live' : FreeList}
      → Reach capacity alignment a live
      → Step a live b live'
      → Reach capacity alignment b live'

pub record IsTidy (a : BumpAllocator) (live : FreeList) : Type 0 where
  pub sound : IsSound a live
  pub live_within : IsWithin a.offset live
  pub free_granular : IsGranular a.alignment a.free_list
  pub live_granular : IsGranular a.alignment live

module _ (o s : ℕ) where
  pub cover-middle :
      (x : ℕ) (before after : FreeList)
      → cover x (before ++ ((o, s) ∷ after)) ≡ cover x ((o, s) ∷ before ++ after)
  unfolding cover
  cover-middle x [] after = refl
  cover-middle x ((p, t) ∷ before) after = omega (arith, cover-middle x before after)

  pub All-middle :
      (P : ℕ × ℕ → Type 0) (before after : FreeList)
      → All P (before ++ ((o, s) ∷ after))
      → P (o, s) × All P (before ++ after)
  All-middle P [] after h = h
  All-middle P (b ∷ before) after h =
      ((All-middle P before after h.1).0, (h.0, (All-middle P before after h.1).1))

frees-IsTidy :
    (offset size : ℕ) (before after : FreeList) (a : BumpAllocator)
    → IsTidy a (before ++ ((offset, size) ∷ after))
    → IsTidy (deallocate offset size a) (before ++ after)
unfolding deallocate
frees-IsTidy offset size before after a t = record {
  sound =
      deallocate-IsSound offset size a (before ++ after)
        (record {
          well_formed = t.sound.well_formed;
          exclusive =
              λ x. omega (arith, t.sound.exclusive x, cover-middle offset size x before after);
        })
        block.0;
  live_within = block.1;
  free_granular = All-insert (IsUnits a.alignment) offset size a.free_list units.0 t.free_granular;
  live_granular = units.1;
}
  where
    block : (offset + size ≤ a.offset) × IsWithin a.offset (before ++ after)
    block = All-middle offset size (λ (b : ℕ × ℕ). b.0 + b.1 ≤ a.offset) before after t.live_within

    units :
        (Multiple a.alignment offset × Multiple a.alignment size)
        × IsGranular a.alignment (before ++ after)
    units = All-middle offset size (IsUnits a.alignment) before after t.live_granular

module _ (size : ℕ) (a : BumpAllocator) (live : FreeList) (t : IsTidy a live) (len : size ≤ max_len)
    (unit : Multiple a.alignment size) where
  live_after :
      (o : Option ℕ) (b : BumpAllocator)
      → IsConserving size a o b
      → Served size a o b
      → IsWithin b.offset (grant o size live) × IsGranular a.alignment (grant o size live)
  live_after none b c v =
      (IsWithin-mono a.offset b.offset live c.grows t.live_within, t.live_granular)
  live_after (some offset) b c v = (
    (c.in_range, IsWithin-mono a.offset b.offset live c.grows t.live_within),
    (
      (Served-Multiple size a t.sound.well_formed len unit t.free_granular offset b v, unit),
      t.live_granular,
    ),
  )

  allocates-IsTidy :
      (o : Option ℕ) (b : BumpAllocator)
      → IsConserving size a o b
      → Served size a o b
      → IsTidy b (grant o size live)
  allocates-IsTidy o b c v = record {
    sound = record {
      well_formed = c.well_formed;
      exclusive = λ x. omega (arith, c.conserves x, t.sound.exclusive x, cover-grant x o size live);
    };
    live_within = (live_after o b c v).0;
    free_granular =
        rw c.same_alignment
          (Served-IsGranular size a t.sound.well_formed len unit t.free_granular o b v);
    live_granular = rw c.same_alignment (live_after o b c v).1;
  }

Step-IsTidy :
    {a b : BumpAllocator} {live live' : FreeList}
    → IsTidy a live
    → Step a live b live'
    → IsTidy b live'
Step-IsTidy {a} {b} {live} {live'} t (allocates size o len unit e el) =
    rw el (allocates-IsTidy size a live t len unit o b conserving served)
  where
    served : Served size a o b
    served = Served-of_allocate size a o b t.sound.well_formed.sorted e

    conserving : IsConserving size a o b
    conserving =
        Served-IsConserving size a t.sound.well_formed len o b
          (granular-CanServe size a t.sound.well_formed len unit t.free_granular) served
Step-IsTidy {a} {b} {live} {live'} t (frees offset size before after e eb el) =
    rw (eb, el) (frees-IsTidy offset size before after a (rw e at t))

new-IsTidy :
    (capacity alignment : ℕ)
    → IsAlignment alignment
    → capacity + alignment ≤ max_len
    → IsTidy (new capacity alignment) []
unfolding new
new-IsTidy capacity alignment i small = record {
  sound = new-IsSound capacity alignment i small;
  live_within = tt;
  free_granular = tt;
  live_granular = tt;
}

pub Reach-IsTidy :
    {capacity alignment : ℕ} {a : BumpAllocator} {live : FreeList}
    → IsAlignment alignment
    → capacity + alignment ≤ max_len
    → Reach capacity alignment a live
    → IsTidy a live
Reach-IsTidy {capacity} {alignment} i small (start ea el) =
    rw (ea, el) (new-IsTidy capacity alignment i small)
Reach-IsTidy i small (next r st) = Step-IsTidy (Reach-IsTidy i small r) st

-- After any history of requests of at most max_len bytes for whole units of the alignment and of
-- returns of live blocks, from a new allocator whose alignment is a power of two and whose
-- capacity and alignment are at most max_len together, no byte is in two blocks, live or free, and
-- every block lies below the bump offset, which is inside the capacity.
pub Reach-IsSound :
    {capacity alignment : ℕ} {a : BumpAllocator} {live : FreeList}
    → IsAlignment alignment
    → capacity + alignment ≤ max_len
    → Reach capacity alignment a live
    → IsSound a live × IsWithin a.offset live
Reach-IsSound {a = a} {live = live} i small r = (t.sound, t.live_within)
  where
    t : IsTidy a live
    t = Reach-IsTidy i small r
