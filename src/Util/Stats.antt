-- ===== src/Util/Stats.antt =====
-- src/util/stats.h: the reduction of a map's values over the CPUs. A value is the list of its cells;
-- where the source reads pairs of cells, it is the list of the pairs. Arithmetic is that of `uint64_t`.
mod Extremes
mod Tests
use bpftrace.Prelude.{
  ℕ, ◌+◌, ◌-◌, ◌/◌, ◌%◌, ◌^◌, min, max, ap, Bool, true, false, not, ◌&&◌, List, [], ◌∷◌, map, ltb,
  if◌then◌else◌, set,
}
use bpftrace.Prelude.Int.{
  ℤ, pos, negsuc, pos_part, neg_part, sub_ℕ, ◌+ℤ◌, ◌-ℤ◌, ◌*ℤ◌, ◌≤ℤ◌, ltb_ℤ, +ℤ_parts, -ℤ_parts,
  eq_of_parts, int_laws,
}

abbrev word_plus : ℕ → ℕ → ℕ
word_plus a b = (a + b) % 2 ^ 64

-- `reduce_value`.
unfoldable pub reduce_from : ℕ → List ℕ → ℕ
reduce_from sum [] = sum
reduce_from sum (c ∷ cells) = reduce_from (word_plus sum c) cells

unfoldable pub reduce_value : List ℕ → ℕ
unfolding reduce_from
reduce_value cells = reduce_from 0 cells

-- The variables of the loop of `min_max_value`.
pub record Extreme : Type 0 where
  pub mm_val : ℤ
  pub mm_set : Bool

-- One turn of the loop. A cell that no CPU has set is passed over.
unfoldable pub update_extreme : Bool → ℤ → Bool → Extreme → Extreme
update_extreme is_max val is_set e =
    if not is_set
    then e
    else if not e.mm_set
    then record { mm_val = val; mm_set = true }
    else if is_max && ltb_ℤ e.mm_val val
    then record { mm_val = val; mm_set = e.mm_set }
    else if not is_max && ltb_ℤ val e.mm_val
    then record { mm_val = val; mm_set = e.mm_set }
    else e

unfoldable pub extreme_from : Bool → Extreme → List (ℤ × Bool) → Extreme
unfolding update_extreme
extreme_from is_max e [] = e
extreme_from is_max e ((val, is_set) ∷ cells) =
    extreme_from is_max (update_extreme is_max val is_set e) cells

-- `min_max_value`.
unfoldable pub min_max_value : Bool → List (ℤ × Bool) → ℤ
unfolding extreme_from
min_max_value is_max cells =
    (extreme_from is_max (record { mm_val = pos 0; mm_set = false }) cells).mm_val

pub record Stats : Type 0 where
  pub total : ℕ
  pub count : ℕ
  pub avg : ℕ

unfoldable pub stats_from : ℕ → ℕ → List (ℕ × ℕ) → Stats
stats_from total count [] = record {
  total = total;
  count = count;
  avg = if ltb 0 count then total / count else 0;
}
stats_from total count ((val, cpu_count) ∷ cells) =
    stats_from (word_plus total val) (word_plus count cpu_count) cells

-- `stats_value` and `avg_value`.
unfoldable pub stats_value : List (ℕ × ℕ) → Stats
unfolding stats_from
stats_value cells = stats_from 0 0 cells

unfoldable pub avg_value : List (ℕ × ℕ) → ℕ
unfolding stats_value
avg_value cells = (stats_value cells).avg
