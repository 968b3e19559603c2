-- ===== src/Transport/Fabric/CpuList/RoundTrip.antt =====
-- A list of CPUs that is printed the way Linux prints it is read back as its CPUs.
use kv_rdma_poc.Shared.{
  ℕ, zero, suc, ◌+◌, ◌-◌, ap, ◌∙◌, ◌^◌, ◌≤◌, ◌<◌, ◌≡◌, ◌≢◌, refl, List, [], ◌∷◌, ◌++◌, arith, ◌==◌,
  false, ok, All,
}
use kv_rdma_poc.Shared.Text.{decimal, range_from}
use kv_rdma_poc.Shared.Parse.{is_white, split}
use kv_rdma_poc.Shared.Parse.Digits.{IsDigit, decimal-IsDigit, parse_uint-decimal}
use kv_rdma_poc.Shared.Parse.Split.{
  All-append, All-map, trim-append, split-one, split-append, split_once-none, split_once-append,
}
use kv_rdma_poc.Transport.Fabric.CpuList.{inclusive, parse_part, parse_parts, parse_cpulist}

-- One CPU, or a CPU with the next ones after it.
pub data Cpus : Type 0 where
  single : ℕ → Cpus
  span : (start more : ℕ) → Cpus

abbrev pub consecutive : ℕ → ℕ → List ℕ
consecutive start zero = start ∷ []
consecutive start (suc more) = start ∷ consecutive (start + 1) more

abbrev pub expand : Cpus → List ℕ
expand (single cpu) = cpu ∷ []
expand (span start more) = consecutive start more

abbrev pub expand_all : List Cpus → List ℕ
expand_all [] = []
expand_all (c ∷ cs) = expand c ++ expand_all cs

abbrev pub print : Cpus → List ℕ
print (single cpu) = decimal cpu
print (span start more) = decimal start ++ b'-' ∷ decimal (start + more)

-- The parts with commas between them.
abbrev pub print_all : Cpus → List Cpus → List ℕ
print_all c [] = print c
print_all c (d ∷ ds) = print c ++ b',' ∷ print_all d ds

abbrev pub IsCpus : Cpus → Type 0
IsCpus (single cpu) = cpu < 2 ^ 16
IsCpus (span start more) = start + more < 2 ^ 16

-- Digits, commas and dashes.
abbrev IsListed : ℕ → Type 0
IsListed c = (b',' ≤ c) × (c ≤ b'9')

abbrev IsPart : ℕ → Type 0
IsPart c = (b'-' ≤ c) × (c ≤ b'9')

print-IsPart : (c : Cpus) → All IsPart (print c)
print-IsPart (single cpu) =
    All-map IsDigit IsPart (decimal cpu) (λ c d. omega arith) (decimal-IsDigit cpu)
print-IsPart (span start more) =
    All-append IsPart (decimal start) (b'-' ∷ decimal (start + more))
      (All-map IsDigit IsPart (decimal start) (λ c d. omega arith) (decimal-IsDigit start))
      (
        (omega arith, omega arith),
        All-map IsDigit IsPart (decimal (start + more)) (λ c d. omega arith)
            (decimal-IsDigit (start + more)),
      )

print_all-IsListed : (c : Cpus) (cs : List Cpus) → All IsListed (print_all c cs)
print_all-IsListed c [] = All-map IsPart IsListed (print c) (λ c d. omega arith) (print-IsPart c)
print_all-IsListed c (d ∷ ds) =
    All-append IsListed (print c) (b',' ∷ print_all d ds)
      (All-map IsPart IsListed (print c) (λ c d. omega arith) (print-IsPart c))
      ((omega arith, omega arith), print_all-IsListed d ds)

range_from-consecutive : (start more : ℕ) → range_from start (suc more) ≡ consecutive start more
unfolding range_from
range_from-consecutive start zero = refl
range_from-consecutive start (suc more) =
    ap (λ (xs : List ℕ). start ∷ xs) (range_from-consecutive (start + 1) more)

inclusive-consecutive : (start more : ℕ) → inclusive start (start + more) ≡ consecutive start more
inclusive-consecutive start more =
    ap (range_from start) {x = start + more + 1 - start} {y = suc more} (omega arith)
    ∙ range_from-consecutive start more

parse_part-print : (c : Cpus) → IsCpus c → parse_part (print c) ≡ ok (expand c)
unfolding parse_part
parse_part-print (single cpu) h =
    rw
      (
        split_once-none b'-' (decimal cpu) (
            All-map IsDigit (λ c. c ≢ b'-') (decimal cpu) (λ c d. ground arith)
              (decimal-IsDigit cpu)),
        parse_part,
      )
      (rw (parse_uint-decimal (2 ^ 16) cpu h) refl)
parse_part-print (span start more) h =
    rw
      (
        split_once-append b'-' (decimal start) (decimal (start + more)) (
            All-map IsDigit (λ c. c ≢ b'-') (decimal start) (λ c d. ground arith)
              (decimal-IsDigit start)),
        parse_part,
      )
      (rw
        (
          parse_uint-decimal (2 ^ 16) start (omega arith),
          parse_uint-decimal (2 ^ 16) (start + more) h,
        )
        (ap ok (inclusive-consecutive start more)))

no_comma : (c : Cpus) → All (λ x. (x == b',') ≡ false) (print c)
no_comma c =
    All-map IsPart (λ x. (x == b',') ≡ false) (print c) (λ x d. ground arith) (print-IsPart c)

parse_parts-print :
    (c : Cpus) (cs : List Cpus)
    → All IsCpus (c ∷ cs)
    → parse_parts (split (λ x. x == b',') (print_all c cs)) ≡ ok (expand_all (c ∷ cs))
unfolding parse_parts
parse_parts-print c [] h =
    rw (split-one (λ x. x == b',') (print c) (no_comma c), parse_part-print c h.0) refl
parse_parts-print c (d ∷ ds) h =
    rw
      (
        split-append (λ x. x == b',') (print c) b',' (print_all d ds) (no_comma c) refl,
        parse_part-print c h.0,
        parse_parts-print d ds h.1,
      )
      refl

-- The text of single CPUs and ranges below 2 ^ 16 with commas between them and a newline at the
-- end, as the kernel prints them, is parsed into these CPUs, the ranges with both ends.
pub parse_cpulist-print :
    (c : Cpus) (cs : List Cpus)
    → All IsCpus (c ∷ cs)
    → parse_cpulist (print_all c cs ++ 10 ∷ []) ≡ ok (expand_all (c ∷ cs))
unfolding parse_cpulist
parse_cpulist-print c cs h =
    rw
      (trim-append (print_all c cs) 10
        (All-map IsListed (λ x. is_white x ≡ false) (print_all c cs)
          (λ x d. unfold is_white in ground arith) (print_all-IsListed c cs))
        (unfold is_white in refl))
      (parse_parts-print c cs h)
