-- ===== src/Util/Stats/Tests.antt =====
-- The reductions at concrete cells.
use bpftrace.Prelude.{◌≡◌, refl, ◌⊎◌, Bool, true, false, List, [], ◌∷◌}
use bpftrace.Prelude.Int.{ℤ, pos, negsuc}
use bpftrace.Util.Stats.{min_max_value, update_extreme}
use bpftrace.Util.Stats.Extremes.{In, set_values, Beyond, min_max_value-extreme}

abbrev cells : List (ℤ × Bool)
cells = (negsuc 4, true) ∷ (pos 9, false) ∷ (pos 3, true) ∷ []

min_max_value-extreme_example :
    ((v : ℤ) → In v (set_values cells) → Beyond false (min_max_value false cells) v)
    × (((set_values cells ≡ []) × (min_max_value false cells ≡ pos 0))
        ⊎ In (min_max_value false cells) (set_values cells))
min_max_value-extreme_example = min_max_value-extreme false cells

least_cell : min_max_value false cells ≡ negsuc 4
unfolding min_max_value update_extreme
least_cell = refl
