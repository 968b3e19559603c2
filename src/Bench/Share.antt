-- ===== src/Bench/Share.antt =====
-- The share of a worker in src/bin/bench.rs: the keys that it reads, and later deletes.
pub mod Order
use native.Mathlib.Nat.{div-add-mod'}
use kv_rdma_poc.Shared.{
  ℕ, zero, suc, ◌+◌, ◌-◌, ◌*◌, ◌/◌, ◌≤◌, ◌<◌, ◌≡◌, inl, inr, arith, ltb, ◌==◌, if◌then◌else◌,
  Bool-cases,
}

unfoldable pub start_idx : (num_keys num_workers worker_id : ℕ) → ℕ
start_idx num_keys num_workers worker_id = worker_id * (num_keys / num_workers)

-- The last worker takes the remainder.
unfoldable pub end_idx : (num_keys num_workers worker_id : ℕ) → ℕ
unfolding start_idx
end_idx num_keys num_workers worker_id =
    if worker_id == num_workers - 1
    then num_keys
    else start_idx num_keys num_workers worker_id + num_keys / num_workers

-- The chunk of size `q` that holds `idx`, among the first `k`.
chunk : (q idx k : ℕ) → idx < k * q → (w : ℕ) × (w < k) × (w * q ≤ idx) × (idx < w * q + q)
chunk q idx zero h = absurd (omega arith)
chunk q idx (suc k) h = elim (Bool-cases (ltb idx (k * q))) [
  | inl below ↦ wider (chunk q idx k (ground arith))
  | inr above ↦ (k, omega arith, ground arith, ground arith)
]
  where
    wider :
        (w : ℕ) × (w < k) × (w * q ≤ idx) × (idx < w * q + q)
        → (w : ℕ) × (w < suc k) × (w * q ≤ idx) × (idx < w * q + q)
    wider (w, lt, lo, hi) = (w, omega arith, lo, hi)

-- With at least one worker, every key is in the share of a worker.
pub every_key_shared :
    (num_keys num_workers idx : ℕ)
    → 0 < num_workers
    → idx < num_keys
    → (w : ℕ) × (w < num_workers)
      × (start_idx num_keys num_workers w ≤ idx)
      × (idx < end_idx num_keys num_workers w)
unfolding start_idx end_idx
every_key_shared num_keys num_workers idx some_worker within =
    elim (Bool-cases (ltb idx ((num_workers - 1) * (num_keys / num_workers)))) [
      | inl below ↦ early (chunk (num_keys / num_workers) idx (num_workers - 1) (ground arith))
      | inr above ↦ (num_workers - 1, omega arith, ground arith, ground arith)
    ]
  where
    early :
        (w : ℕ) × (w < num_workers - 1)
          × (w * (num_keys / num_workers) ≤ idx)
          × (idx < w * (num_keys / num_workers) + num_keys / num_workers)
        → (w : ℕ) × (w < num_workers)
          × (start_idx num_keys num_workers w ≤ idx)
          × (idx < end_idx num_keys num_workers w)
    early (w, lt, lo, hi) = (w, omega arith, lo, ground arith)

mul_le : (v w q : ℕ) → v < w → v * q + q ≤ w * q
mul_le v zero q h = absurd (omega arith)
mul_le v (suc w) q h = elim (Bool-cases (ltb v w)) [
  | inl below ↦ omega (arith, mul_le v w q (ground arith))
  | inr last ↦ same (ground arith)
]
  where
    same : v ≡ w → v * q + q ≤ suc w * q
    same e = rw e (omega arith)

-- The share of a worker ends no later than the share of any later worker starts.
pub shares_apart :
    (num_keys num_workers v w : ℕ)
    → v < w
    → w < num_workers
    → end_idx num_keys num_workers v ≤ start_idx num_keys num_workers w
unfolding start_idx end_idx
shares_apart num_keys num_workers v w before within =
    ground (arith, mul_le v w (num_keys / num_workers) before)

-- The share of a worker stays within the keys.
pub share_in_range :
    (num_keys num_workers w : ℕ) → w < num_workers → end_idx num_keys num_workers w ≤ num_keys
unfolding start_idx end_idx
share_in_range num_keys num_workers w within =
    ground (arith, mul_le w num_workers (num_keys / num_workers) within, all)
  where
    all : num_workers * (num_keys / num_workers) ≤ num_keys
    all = omega (arith, div-add-mod' num_keys num_workers)

pub share_ordered :
    (num_keys num_workers w : ℕ)
    → w < num_workers
    → start_idx num_keys num_workers w ≤ end_idx num_keys num_workers w
unfolding start_idx end_idx
share_ordered num_keys num_workers w within =
    ground (arith, mul_le w num_workers (num_keys / num_workers) within, all)
  where
    all : num_workers * (num_keys / num_workers) ≤ num_keys
    all = omega (arith, div-add-mod' num_keys num_workers)

-- A worker that is not the last ends where the next one starts.
pub share_next :
    (num_keys num_workers w : ℕ)
    → w + 1 < num_workers
    → end_idx num_keys num_workers w ≡ start_idx num_keys num_workers (w + 1)
unfolding start_idx end_idx
share_next num_keys num_workers w within = grind arith

pub share_last :
    (num_keys num_workers w : ℕ) → w + 1 ≡ num_workers → end_idx num_keys num_workers w ≡ num_keys
unfolding end_idx
share_last num_keys num_workers w last = ground arith
