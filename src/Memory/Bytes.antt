-- ===== src/Memory/Bytes.antt =====
-- The bytes of a process, by address. A pool's buffer, and the buffer that a mock transfer writes to,
-- are ranges of one such memory.
use kv_rdma_poc.Shared.{
  ℕ, zero, suc, ◌+◌, ◌-◌, ◌≤◌, ◌<◌, ◌≡◌, refl, ap, subst, ◌∙◌, ◌⊎◌, List, [], ◌∷◌, ◌&&◌, arith, leb,
  ltb, if◌then◌else◌, length, get_or,
}

abbrev pub Memory : Type 0
Memory = ℕ → ℕ

-- The `n` bytes from `p` on.
unfoldable pub load : Memory → ℕ → ℕ → List ℕ
load m p zero = []
load m p (suc n) = m p ∷ load m (p + 1) n

-- `copy_from_slice`
unfoldable pub store : Memory → ℕ → List ℕ → Memory
store m p bs q = if leb p q && ltb q (p + length bs) then get_or bs (q - p) 0 else m q

-- `copy_nonoverlapping`
unfoldable pub copy : Memory → ℕ → ℕ → ℕ → Memory
copy m src dst n = store m dst (load m src n)

pub length-load : (m : Memory) (p n : ℕ) → length (load m p n) ≡ n
unfolding load
length-load m p zero = refl
length-load m p (suc n) = omega (arith, length-load m (p + 1) n)

-- What is read depends on the range alone.
pub load-eq :
    (m m' : Memory) (p n : ℕ)
    → ((q : ℕ) → p ≤ q → q < p + n → m q ≡ m' q)
    → load m p n ≡ load m' p n
unfolding load
load-eq m m' p zero h = refl
load-eq m m' p (suc n) h = cc (
  h p (omega arith) (omega arith),
  load-eq m m' (p + 1) n (λ q lo hi. h q (omega arith) (omega arith)),
)

pub store-eq_outside :
    (m : Memory) (p : ℕ) (bs : List ℕ) (q : ℕ)
    → (q < p) ⊎ (p + length bs ≤ q)
    → store m p bs q ≡ m q
unfolding store
store-eq_outside m p bs q h = ground arith

-- A write leaves what is read elsewhere alone.
pub load-store_ne :
    (m : Memory) (p n r : ℕ) (bs : List ℕ)
    → (p + n ≤ r) ⊎ (r + length bs ≤ p)
    → load (store m r bs) p n ≡ load m p n
load-store_ne m p n r bs apart =
    load-eq (store m r bs) m p n (λ q lo hi. store-eq_outside m r bs q (ground arith))

-- A memory that holds `bs` at `p`.
load-get_or :
    (m : Memory) (p : ℕ) (bs : List ℕ)
    → ((i : ℕ) → i < length bs → m (p + i) ≡ get_or bs i 0)
    → load m p (length bs) ≡ bs
unfolding load
load-get_or m p [] h = refl
load-get_or m p (b ∷ bs) h = cc (here, load-get_or m (p + 1) bs later)
  where
    here : m p ≡ b
    here = ap m (omega arith) ∙ h 0 (omega arith)

    later : (i : ℕ) → i < length bs → m (p + 1 + i) ≡ get_or bs i 0
    later i l = ap m (omega arith) ∙ h (suc i) (omega arith)

store-get_or :
    (m : Memory) (p : ℕ) (bs : List ℕ) (i : ℕ)
    → i < length bs
    → store m p bs (p + i) ≡ get_or bs i 0
unfolding store
store-get_or m p bs i h = let e : p + i - p ≡ i = omega arith in rw e (ground arith)

-- A write is read back.
pub load-store_self : (m : Memory) (p : ℕ) (bs : List ℕ) → load (store m p bs) p (length bs) ≡ bs
load-store_self m p bs = load-get_or (store m p bs) p bs (store-get_or m p bs)

-- A copy arrives.
pub load-copy : (m : Memory) (src dst n : ℕ) → load (copy m src dst n) dst n ≡ load m src n
unfolding copy
load-copy m src dst n =
    subst (λ (k : ℕ). load (copy m src dst n) dst k ≡ load m src n) (length-load m src n)
      (load-store_self m dst (load m src n))

-- A copy leaves what is read elsewhere alone.
pub load-copy_ne :
    (m : Memory) (src dst k p n : ℕ)
    → (p + n ≤ dst) ⊎ (dst + k ≤ p)
    → load (copy m src dst k) p n ≡ load m p n
unfolding copy
load-copy_ne m src dst k p n apart =
    load-store_ne m p n dst (load m src k) (ground (arith, length-load m src k))
