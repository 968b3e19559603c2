-- ===== src/Bench/Phases/Counts/Workers.antt =====
-- The workers of the read phase of src/bin/bench.rs, counted.
use kv_rdma_poc.Shared.{
  ℕ, ◌+◌, ◌*◌, ◌%◌, ◌<◌, ◌≡◌, refl, ap, List, [], ◌∷◌, Exec, length, All, arith,
}
use kv_rdma_poc.Shared.Word.{word, add64}
use kv_rdma_poc.Shared.Text.{range_from}
use kv_rdma_poc.Message.{Message}
use kv_rdma_poc.Bench.{Args, World}
use kv_rdma_poc.Bench.Index.{rem_pos}
use kv_rdma_poc.Bench.Share.{start_idx, share_in_range, share_ordered}
use kv_rdma_poc.Bench.Share.Order.{Shuffle, size, sizes, order-below, order-sizes}
use kv_rdma_poc.Bench.Phases.{repeat_work, share_of, worker, gather, read_phase}
use kv_rdma_poc.Bench.Phases.Counts.{
  calls, Counts, IsAnswered, Counts-as, Counts-none, reads, repeat_work-Counts,
}

module _ {R : Type 0} (Good : World R → Type 0) (Clean : Type 0) where
  module _ (keys : List (List ℕ)) (answered : IsAnswered Good Clean keys) where
    module _ (args : Args) (same : args.num_keys ≡ length keys) where
      body : ℕ → List ℕ → Exec (World R) Message (ℕ × ℕ)
      body i share =
          repeat_work (reads Good Clean keys answered i) keys share args.repeat_reads (0, 0)

      worker-Counts :
          (i : ℕ) (w : World R)
          → 0 < length w.clients
          → Good w
          → i < args.num_workers
          → args.repeat_reads * size args.num_keys args.num_workers i < word
          → Counts Good Clean
              (worker body args i w)
              w
              (args.repeat_reads * size args.num_keys args.num_workers i)
              0
      unfolding worker share_of body
      worker-Counts i w some_client good within fits =
          let a =
            repeat_work-Counts Good Clean keys answered (i % length w.clients)
              (start_idx args.num_keys args.num_workers i) (size args.num_keys args.num_workers i)
              args.repeat_reads (0, 0) w c_within good
              (omega (
                arith,
                share_ordered args.num_keys args.num_workers i within,
                share_in_range args.num_keys args.num_workers i within,
              ))
              (omega arith) in
          Counts-as Good Clean w w a
            (rw (rem_pos i (length w.clients) w some_client) (rw a.run refl)) (omega arith)
            (λ clean. refl) refl
        where
          c_within : i % length w.clients < length w.clients
          c_within = grind arith

      gather-Counts :
          (order : List ℕ) (total : ℕ × ℕ) (w : World R)
          → 0 < length w.clients
          → Good w
          → All (λ i. i < args.num_workers) order
          → calls total + args.repeat_reads * sizes args.num_keys args.num_workers order < word
          → Counts Good Clean
              (gather (worker body args) order total w)
              w
              (calls total + args.repeat_reads * sizes args.num_keys args.num_workers order)
              total.1
      unfolding gather sizes
      gather-Counts [] total w some_client good within fits =
          Counts-none Good Clean _ total w good (omega arith)
      gather-Counts (i ∷ order) total w some_client good (within, others) fits =
          let n : ℕ = size args.num_keys args.num_workers i in
          let m : ℕ = sizes args.num_keys args.num_workers order in
          let split : args.repeat_reads * (n + m) ≡ args.repeat_reads * n + args.repeat_reads * m =
            grind arith in
          let a = worker-Counts i w some_client good within (omega arith) in
          let ops : add64 total.0 a.tally.0 ≡ total.0 + a.tally.0 = omega (arith, a.sum) in
          let errs : add64 total.1 a.tally.1 ≡ total.1 + a.tally.1 = omega (arith, a.sum) in
          let b =
            gather-Counts order (add64 total.0 a.tally.0, add64 total.1 a.tally.1) a.after
              (omega (arith, a.clients)) a.good others (omega (arith, a.sum)) in
          Counts-as Good Clean a.after w b (rw a.run refl) (omega (arith, a.sum, ops, errs))
            (λ clean. omega (arith, errs, a.errors clean)) a.clients

  pub read_phase-Counts :
      (args : Args) (keys : List (List ℕ)) (order : List ℕ) (w : World R)
      → IsAnswered Good Clean keys
      → args.num_keys ≡ length keys
      → args.repeat_reads * length keys < word
      → 0 < args.num_workers
      → Shuffle (range_from 0 args.num_workers) order
      → 0 < length w.clients
      → Good w
      → Counts Good Clean (read_phase args keys order w) w (args.num_keys * args.repeat_reads) 0
  unfolding read_phase body reads
  read_phase-Counts args keys order w answered same fits some_worker shuffled some_client good =
      let all = order-sizes args.num_keys args.num_workers order shuffled some_worker in
      let times : args.repeat_reads * sizes args.num_keys args.num_workers order
          ≡ args.repeat_reads * args.num_keys =
        ap (λ (n : ℕ). args.repeat_reads * n) all in
      let turned : args.repeat_reads * args.num_keys ≡ args.num_keys * args.repeat_reads =
        grind arith in
      let wide : args.repeat_reads * args.num_keys ≡ args.repeat_reads * length keys =
        ap (λ (n : ℕ). args.repeat_reads * n) same in
      let a =
        gather-Counts keys answered args same order (0, 0) w some_client good
          (order-below args.num_keys args.num_workers order shuffled) (omega arith) in
      Counts-as Good Clean w w a refl (omega arith) (λ clean. refl) refl
