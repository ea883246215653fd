-- ===== src/Util/Stats/Extremes.antt =====
-- What the reductions compute.
use bpftrace.Prelude.Int.{◌≤ℤ◌, ℤ, pos}
use bpftrace.Prelude.{◌≡◌, refl, ◌⊎◌, inl, inr, Bool, true, false, List, [], ◌∷◌, arith, sym, ◌∙◌}
use bpftrace.Util.Stats.{update_extreme, Extreme, extreme_from, min_max_value}
use mathlib.Core.Path.{subst}

-- The values that some CPU has set.
abbrev pub set_values : List (ℤ × Bool) → List ℤ
set_values [] = []
set_values ((v, true) ∷ cells) = v ∷ set_values cells
set_values ((v, false) ∷ cells) = set_values cells

abbrev pub In : ℤ → List ℤ → Type 0
In v [] = ⊥
In v (w ∷ ws) = (v ≡ w) ⊎ In v ws

-- Not below the other, or not above it.
abbrev pub Beyond : Bool → ℤ → ℤ → Type 0
Beyond true m v = v ≤ℤ m
Beyond false m v = m ≤ℤ v

Beyond-trans :
    (is_max : Bool) (a b c : ℤ) → Beyond is_max a b → Beyond is_max b c → Beyond is_max a c
Beyond-trans true a b c h k = omega arith
Beyond-trans false a b c h k = omega arith

Beyond-refl : (is_max : Bool) (a : ℤ) → Beyond is_max a a
Beyond-refl true a = omega arith
Beyond-refl false a = omega arith

-- One more set value, after the first.
record Updated (is_max : Bool) (v : ℤ) (e after : Extreme) : Type 0 where
  still_set : after.mm_set ≡ true
  beyond_new : Beyond is_max after.mm_val v
  beyond_old : Beyond is_max after.mm_val e.mm_val
  either_one : (after.mm_val ≡ v) ⊎ (after.mm_val ≡ e.mm_val)

update-Updated :
    (is_max : Bool) (v : ℤ) (e : Extreme)
    → e.mm_set ≡ true
    → Updated is_max v e (update_extreme is_max v true e)
unfolding update_extreme
update-Updated true v e h = record {
  still_set = ground arith;
  beyond_new = ground arith;
  beyond_old = ground arith;
  either_one = ground arith;
}
update-Updated false v e h = record {
  still_set = ground arith;
  beyond_new = ground arith;
  beyond_old = ground arith;
  either_one = ground arith;
}

among_rest :
    (is_max : Bool) (v w m : ℤ) (cells : List (ℤ × Bool))
    → Beyond is_max m v
    → ((u : ℤ) → In u (set_values cells) → Beyond is_max m u)
    → In w (v ∷ set_values cells)
    → Beyond is_max m w
among_rest is_max v w m cells b all (inl q) = subst (Beyond is_max m) (sym q) b
among_rest is_max v w m cells b all (inr q) = all w q

step_among :
    (m v start u : ℤ) (vs : List ℤ)
    → (u ≡ v) ⊎ (u ≡ start)
    → (m ≡ u) ⊎ In m vs
    → (m ≡ start) ⊎ In m (v ∷ vs)
step_among m v start u vs (inl a) (inl b) = inr (inl (b ∙ a))
step_among m v start u vs (inr a) (inl b) = inl (b ∙ a)
step_among m v start u vs a (inr b) = inr (inr b)

-- What the rest of the loop makes of a value that is set.
record Extremal (is_max : Bool) (start : ℤ) (vs : List ℤ) (m : ℤ) : Type 0 where
  beyond_start : Beyond is_max m start
  beyond_all : (v : ℤ) → In v vs → Beyond is_max m v
  among_them : (m ≡ start) ⊎ In m vs

extreme_from-Extremal :
    (is_max : Bool) (e : Extreme) (cells : List (ℤ × Bool))
    → e.mm_set ≡ true
    → Extremal is_max e.mm_val (set_values cells) (extreme_from is_max e cells).mm_val
unfolding extreme_from
extreme_from-Extremal is_max e [] h = record {
  beyond_start = Beyond-refl is_max e.mm_val;
  beyond_all = λ v q. absurd q;
  among_them = inl refl;
}
extreme_from-Extremal is_max e ((v, false) ∷ cells) h = extreme_from-Extremal is_max e cells h
extreme_from-Extremal is_max e ((v, true) ∷ cells) h =
    let u = update-Updated is_max v e h in
    let t = extreme_from-Extremal is_max (update_extreme is_max v true e) cells u.still_set in
    record {
      beyond_start = Beyond-trans is_max _ _ _ t.beyond_start u.beyond_old;
      beyond_all = λ w q.
          among_rest is_max v w _ cells (Beyond-trans is_max _ _ _ t.beyond_start u.beyond_new)
            t.beyond_all q;
      among_them = step_among _ v e.mm_val _ (set_values cells) u.either_one t.among_them;
    }

abbrev unset : Extreme
unset = record { mm_val = pos 0; mm_set = false }

unset_from :
    (is_max : Bool) (cells : List (ℤ × Bool))
    → ((v : ℤ) → In v (set_values cells) → Beyond is_max (extreme_from is_max unset cells).mm_val v)
      × (((set_values cells ≡ []) × ((extreme_from is_max unset cells).mm_val ≡ pos 0))
          ⊎ In (extreme_from is_max unset cells).mm_val (set_values cells))
unfolding extreme_from
unset_from is_max [] = (λ v q. absurd q, inl (refl, refl))
unset_from is_max ((v, false) ∷ cells) = unset_from is_max cells
unset_from is_max ((v, true) ∷ cells) =
    let t = extreme_from-Extremal is_max (record { mm_val = v; mm_set = true }) cells refl in
    (λ w q. among_rest is_max v w _ cells t.beyond_start t.beyond_all q, inr t.among_them)

-- `min_max_value` is one of the values that some CPU has set, and no set value lies beyond it,
-- above it for the maximum and below it for the minimum; with no value set it is zero.
pub min_max_value-extreme :
    (is_max : Bool) (cells : List (ℤ × Bool))
    → ((v : ℤ) → In v (set_values cells) → Beyond is_max (min_max_value is_max cells) v)
      × (((set_values cells ≡ []) × (min_max_value is_max cells ≡ pos 0))
          ⊎ In (min_max_value is_max cells) (set_values cells))
unfolding min_max_value
min_max_value-extreme is_max cells = unset_from is_max cells
