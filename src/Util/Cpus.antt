-- ===== src/Util/Cpus.antt =====
-- src/util/cpus.cpp: lists of CPUs. The text of the file that the kernel shows is a parameter.
mod Range
mod Tests
use bpftrace.Util.Strings.{split_string}
use bpftrace.Util.Strtoull.{skip_spaces, split_sign, scan_digits}
use bpftrace.Util.IntParser.{c_str}
use bpftrace.Util.PowerOfTwo.{round_up_to_next_power_of_two}
use bpftrace.Prelude.{
  ℕ, zero, suc, ◌+◌, ◌-◌, ◌/◌, ◌^◌, ◌<◌, max, Bool, false, not, Option, none, some, List, [], ◌∷◌,
  ◌++◌, ltb, leb, ◌==◌, if◌then◌else◌, length, Bytes,
}
use bpftrace.Prelude.Int.{
  ℤ, pos, negsuc, pos_part, neg_part, sub_ℕ, ◌+ℤ◌, ◌-ℤ◌, ◌*ℤ◌, ◌≤ℤ◌, ltb_ℤ, +ℤ_parts, -ℤ_parts,
  eq_of_parts, int_laws,
}

-- The value of `std::stoi` behind the sign; `none` is an exception.
unfoldable pub int_of : Bool → ℕ × Bytes × Bool → Option ℤ
int_of negative (v, rest, any) =
    if not any
    then none
    else if negative
    then (if leb v (2 ^ 31) then some (sub_ℕ 0 v) else none)
    else if ltb v (2 ^ 31)
    then some (pos v)
    else none

unfoldable pub stoi : Bytes → Option ℤ
stoi s =
    let (negative, text) = split_sign (skip_spaces (c_str s)) in
    int_of negative (scan_digits 10 0 false text)

-- The text before the first dash, and the text behind it.
unfoldable pub split_range : Bytes → Option (Bytes × Bytes)
split_range [] = none
split_range (c ∷ s) =
    if c == b'-'
    then some ([], s)
    else elim (split_range s) [ none ↦ none | some (before, behind) ↦ some (c ∷ before, behind) ]

-- `for (int i = start; i <= end; i++)`: so many integers from a first one on.
unfoldable pub int_range : ℕ → ℤ → List ℤ
unfolding ◌+ℤ◌
int_range zero start = []
int_range (suc count) start = start ∷ int_range count (start +ℤ pos 1)

abbrev pub range_of : ℤ → ℤ → List ℤ
range_of start end = int_range (pos_part (end +ℤ pos 1 -ℤ start)) start

-- One round of the loop.
unfoldable pub read_part : Bytes → Option (List ℤ)
read_part cpu_range = elim (split_range cpu_range) [
  | none ↦ elim (stoi cpu_range) [ none ↦ none | some cpu ↦ some (cpu ∷ []) ]
  | some (before, behind) ↦ elim (stoi before) [
    | none ↦ none
    | some start ↦ elim (stoi behind) [ none ↦ none | some end ↦ some (range_of start end) ]
  ]
]

unfoldable pub read_parts : List Bytes → Option (List ℤ)
read_parts [] = some []
read_parts (cpu_range ∷ parts) = elim (read_part cpu_range) [
  | none ↦ none
  | some cpus ↦ elim (read_parts parts) [ none ↦ none | some more ↦ some (cpus ++ more) ]
]

-- `read_cpu_range`, for the text of the file.
unfoldable pub read_cpu_range : Bytes → Option (List ℤ)
read_cpu_range text = read_parts (split_string text b',' false)

-- `get_max_cpu_id`; `none` is an exception or a failed assertion.
unfoldable pub get_max_cpu_id : Bytes → Option ℕ
get_max_cpu_id possible = elim (read_cpu_range possible) [
  | none ↦ none
  | some [] ↦ none
  | some (cpu ∷ cpus) ↦ elim (round_up_to_next_power_of_two (length (cpu ∷ cpus))) [
    | none ↦ none
    | some power ↦ some (power - 1)
  ]
]
