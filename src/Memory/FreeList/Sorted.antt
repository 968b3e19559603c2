-- ===== src/Memory/FreeList/Sorted.antt =====
-- A `BTreeMap` holds its keys in strictly ascending order.
use kv_rdma_poc.Shared.{ℕ, ◌≤◌, ◌<◌, ◌≡◌, [], ◌∷◌, some, arith, All}
use kv_rdma_poc.Memory.FreeList.{FreeList, insert, get, without, All-insert, All-without, All-get}

abbrev pub IsAbove : ℕ → FreeList → Type 0
IsAbove k = All (λ (b : ℕ × ℕ). k < b.0)

abbrev pub IsSorted : FreeList → Type 0
IsSorted [] = Unit
IsSorted ((j, w) ∷ m) = IsAbove j m × IsSorted m

IsAbove-mono : (i j : ℕ) (m : FreeList) → i ≤ j → IsAbove j m → IsAbove i m
IsAbove-mono i j [] h a = tt
IsAbove-mono i j ((k, w) ∷ m) h a = (omega arith, IsAbove-mono i j m h a.1)

pub insert-IsSorted : (k v : ℕ) (m : FreeList) → IsSorted m → IsSorted (insert k v m)
unfolding insert
insert-IsSorted k v [] s = (tt, tt)
insert-IsSorted k v ((j, w) ∷ m) s = ground (
  arith,
  insert-IsSorted k v m s.1,
  IsAbove-mono k j m,
  λ (p : j < k). All-insert (λ (b : ℕ × ℕ). j < b.0) k v m p s.0,
)

pub without-IsSorted : (k : ℕ) (m : FreeList) → IsSorted m → IsSorted (without k m)
unfolding without
without-IsSorted k [] s = tt
without-IsSorted k ((j, w) ∷ m) s =
    ground (arith, without-IsSorted k m s.1, All-without (λ (b : ℕ × ℕ). j < b.0) k m s.0)

-- A key that is found lies above every lower bound of the keys.
pub IsAbove-get : (j k v : ℕ) (m : FreeList) → IsAbove j m → get k m ≡ some v → j < k
IsAbove-get j k v m a e = All-get (λ (b : ℕ × ℕ). j < b.0) k v m a e
