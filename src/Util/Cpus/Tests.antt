-- ===== src/Util/Cpus/Tests.antt =====
-- Lists of CPUs: runs of src/util/cpus.cpp at fixed inputs, and an instance of the theorem.
use bpftrace.Util.Cpus.{
  read_cpu_range, get_max_cpu_id, read_parts, read_part, stoi, int_of, split_range, int_range,
}
use bpftrace.Util.Cpus.Range.{possible_cpus, all_cpus, get_max_cpu_id-possible}
use bpftrace.Util.Strings.{split_string, split_loop}
use bpftrace.Util.Strtoull.{skip_spaces, split_sign, scan_digits, digit_below, is_space}
use bpftrace.Util.IntParser.{c_str}
use bpftrace.Prelude.{
  ℕ, ◌+◌, ◌-◌, ◌*◌, ◌^◌, ◌≤◌, ◌<◌, ◌≡◌, refl, none, some, [], ◌∷◌, ◌++◌, arith, codes,
}
use bpftrace.Prelude.Int.{pos, ◌+ℤ◌, ◌-ℤ◌}

-- The kernel ends the text with a line feed.
some_cpus : read_cpu_range (codes "0,2-4" ++ 10 ∷ []) ≡ some (pos 0 ∷ pos 2 ∷ pos 3 ∷ pos 4 ∷ [])
unfolding read_cpu_range read_parts read_part stoi int_of split_range int_range split_string
    split_loop skip_spaces split_sign scan_digits digit_below is_space c_str ◌+ℤ◌ ◌-ℤ◌
some_cpus = refl

no_number : read_cpu_range (codes "0,x") ≡ none
unfolding read_cpu_range read_parts read_part stoi int_of split_range int_range split_string
    split_loop skip_spaces split_sign scan_digits digit_below is_space c_str
no_number = refl

get_max_cpu_id-possible_example :
    (read_cpu_range (possible_cpus 5) ≡ some (all_cpus 5))
    × ((e : ℕ) × (get_max_cpu_id (possible_cpus 5) ≡ some (2 ^ e - 1))
        × (5 ≤ 2 ^ e - 1)
        × (2 ^ e < 2 * (5 + 1)))
get_max_cpu_id-possible_example =
    get_max_cpu_id-possible 5 (omega arith) (omega arith) (omega arith)
