-- ===== src/Transport/Fabric/CpuList.antt =====
-- `get_numa_cpus` of src/transport.rs: the list of CPUs that Linux prints for a NUMA node, such as
-- `0-23,48-71`.
pub mod RoundTrip
use kv_rdma_poc.Shared.{
  ℕ, ◌+◌, ◌-◌, ◌^◌, List, [], ◌∷◌, ◌++◌, Option, none, some, ◌==◌, Outcome, ok, err, panic,
}
use kv_rdma_poc.Shared.Text.{codes, decimal, range_from}
use kv_rdma_poc.Shared.Parse.{IntError, trim, split, split_once, parse_uint}
use kv_rdma_poc.Message.{Message, bad_range_start, bad_range_end, bad_cpu}

unfoldable pub numa_path : ℕ → List ℕ
numa_path numa_node =
    codes "/sys/devices/system/node/node" ++ (decimal numa_node ++ codes "/cpulist")

abbrev pub parse_u16 : List ℕ → Outcome IntError ℕ
parse_u16 = parse_uint (2 ^ 16)

abbrev one_cpu : Outcome IntError ℕ → Outcome Message (List ℕ)
one_cpu (ok cpu) = ok (cpu ∷ [])
one_cpu (err e) = err (bad_cpu e)
one_cpu panic = panic

-- `start..=end`
abbrev inclusive : ℕ → ℕ → List ℕ
inclusive start last = range_from start (last + 1 - start)

abbrev cpu_range : Outcome IntError ℕ → Outcome IntError ℕ → Outcome Message (List ℕ)
cpu_range (ok start) (ok last) = ok (inclusive start last)
cpu_range (ok start) (err e) = err (bad_range_end e)
cpu_range (ok start) panic = panic
cpu_range (err e) last = err (bad_range_start e)
cpu_range panic last = panic

unfoldable pub parse_part : List ℕ → Outcome Message (List ℕ)
unfolding range_from parse_uint split_once
parse_part part = elim (split_once b'-' part) [
  | none ↦ one_cpu (parse_u16 part)
  | some (start, last) ↦ cpu_range (parse_u16 start) (parse_u16 last)
]

abbrev add_part : Outcome Message (List ℕ) → Outcome Message (List ℕ) → Outcome Message (List ℕ)
add_part (ok cpus) (ok more) = ok (cpus ++ more)
add_part (ok cpus) (err e) = err e
add_part (ok cpus) panic = panic
add_part (err e) rest = err e
add_part panic rest = panic

-- The loop ends at the first part that is not a number or a range.
unfoldable pub parse_parts : List (List ℕ) → Outcome Message (List ℕ)
unfolding parse_part
parse_parts [] = ok []
parse_parts (part ∷ parts) = add_part (parse_part part) (parse_parts parts)

unfoldable pub parse_cpulist : List ℕ → Outcome Message (List ℕ)
unfolding trim split parse_parts
parse_cpulist cpulist = parse_parts (split (λ c. c == b',') (trim cpulist))
