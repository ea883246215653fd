-- ===== src/Ast/FoldLiterals/Signed.antt =====
-- `eval_binop` at `int64_t` against the arithmetic of the integers.
use bpftrace.Ast.FoldLiterals.Unsigned.{represent, eval_uint64-mul}
use bpftrace.Prelude.{◌≡◌, arith, ℕ, suc, ◌-◌, ◌*◌, ◌≤◌, ◌⊎◌, if◌then◌else◌, ◌<◌, zero, not, ◌&&◌}
use bpftrace.Prelude.Int.{ℤ, pos, negsuc, ◌+ℤ◌, ◌≤ℤ◌, ◌-ℤ◌, ◌*ℤ◌, ltb_ℤ}
use bpftrace.Ast.FoldLiterals.{
  minus_int64, int64_min, plus_int64, int64_max, undefined, no_result, Outcome, mul_int64, quotient,
  result, unsigned,
}
use native.Mathlib.Nat.{mul-zero, mul-pos, zero-mul, mul-div_right}

-- An operand of type `int64_t`.
abbrev pub IsI64 : ℤ → Type 0
IsI64 z = (int64_min ≤ℤ z) × (z ≤ℤ pos int64_max)

-- A sum of signed operands folds to the literal of the exact integer, and to nothing where there is
-- none; no overflow of `int64_t` happens on the way.
pub plus_int64-exact : (a b : ℤ) → IsI64 a → IsI64 b → plus_int64 a b ≡ represent (a +ℤ b)
unfolding plus_int64
plus_int64-exact (pos a) (pos b) ha hb = ground arith
plus_int64-exact (pos a) (negsuc b) ha hb = ground arith
plus_int64-exact (negsuc a) (pos b) ha hb = ground arith
plus_int64-exact (negsuc a) (negsuc b) ha hb = ground arith

*ℤ-pos_neg : (a b : ℕ) → pos (suc a) *ℤ negsuc b ≡ negsuc (suc a * suc b - 1)
unfolding ◌*ℤ◌
*ℤ-pos_neg a b =
    rw (mul-zero (suc a), zero-mul (suc b))
      (ground (arith, mul-pos {m = suc a} {n = suc b} (omega arith) (omega arith)))

*ℤ-neg_pos : (a b : ℕ) → negsuc a *ℤ pos (suc b) ≡ negsuc (suc a * suc b - 1)
unfolding ◌*ℤ◌
*ℤ-neg_pos a b =
    rw (mul-zero (suc a), zero-mul (suc b))
      (ground (arith, mul-pos {m = suc a} {n = suc b} (omega arith) (omega arith)))

quotient-pos_neg : (a b : ℕ) → quotient (negsuc (suc a * suc b - 1)) (pos (suc a)) ≡ negsuc b
unfolding quotient
quotient-pos_neg a b =
    let e : suc (suc a * suc b - 1) ≡ suc a * suc b =
      omega (arith, mul-pos {m = suc a} {n = suc b} (omega arith) (omega arith)) in
    rw (e, mul-div_right (suc b) {m = suc a} (omega arith)) (ground arith)

quotient-neg_pos : (a b : ℕ) → quotient (negsuc (suc a * suc b - 1)) (negsuc a) ≡ pos (suc b)
unfolding quotient
quotient-neg_pos a b =
    let e : suc (suc a * suc b - 1) ≡ suc a * suc b =
      omega (arith, mul-pos {m = suc a} {n = suc b} (omega arith) (omega arith)) in
    rw (e, mul-div_right (suc b) {m = suc a} (omega arith))

-- The literal for an integer that is not positive; computing it is undefined below `int64_min`.
abbrev pub checked_negative : ℤ → Outcome
checked_negative v = if ltb_ℤ v int64_min then undefined else represent v

mul_int64-pos_neg :
    (a b : ℕ)
    → b ≤ int64_max
    → mul_int64 (pos (suc a)) (negsuc b) ≡ checked_negative (negsuc (suc a * suc b - 1))
unfolding mul_int64
mul_int64-pos_neg a b h = rw (*ℤ-pos_neg a b, quotient-pos_neg a b) (ground arith)

mul_int64-neg_pos :
    (a b : ℕ)
    → b < int64_max
    → mul_int64 (negsuc a) (pos (suc b)) ≡ checked_negative (negsuc (suc a * suc b - 1))
unfolding mul_int64
mul_int64-neg_pos a b h = rw (*ℤ-neg_pos a b, quotient-neg_pos a b) (ground arith)

*ℤ-zero : (a : ℤ) → (a *ℤ pos 0 ≡ pos 0) × (pos 0 *ℤ a ≡ pos 0)
unfolding ◌*ℤ◌
*ℤ-zero (pos a) = (simp (mul-zero, zero-mul), simp (mul-zero, zero-mul))
*ℤ-zero (negsuc a) = (simp (mul-zero, zero-mul), simp (mul-zero, zero-mul))

*ℤ-neg_neg : (a b : ℕ) → negsuc a *ℤ negsuc b ≡ pos (suc a * suc b)
unfolding ◌*ℤ◌
*ℤ-neg_neg a b = simp (mul-zero, zero-mul) (ground arith)

mul_int64-neg_neg :
    (a b : ℕ) → mul_int64 (negsuc a) (negsuc b) ≡ checked_negative (pos (suc a * suc b))
unfolding mul_int64
mul_int64-neg_neg a b = ground (arith, eval_uint64-mul (suc a) (suc b))

mul_int64-zero :
    (a : ℤ)
    → (mul_int64 a (pos 0) ≡ result (unsigned 0)) × (mul_int64 (pos 0) a ≡ result (unsigned 0))
unfolding mul_int64
mul_int64-zero (pos a) = (ground arith, ground arith)
mul_int64-zero (negsuc a) = (ground arith, ground arith)

-- A product of signed operands, one of them negative, folds to the literal of the exact integer or,
-- where no literal holds it, to nothing; below the smallest `int64_t` the multiplication that the
-- check of the result rests on has overflowed already, which is undefined behaviour.
pub mul_int64-outcome :
    (a b : ℤ)
    → IsI64 a
    → IsI64 b
    → (a ≤ℤ negsuc 0) ⊎ (b ≤ℤ negsuc 0)
    → mul_int64 a b ≡ checked_negative (a *ℤ b)
mul_int64-outcome (pos a) (pos b) ha hb h = absurd (omega arith)
mul_int64-outcome (pos zero) (negsuc b) ha hb h =
    rw ((*ℤ-zero (negsuc b)).1, (mul_int64-zero (negsuc b)).1)
mul_int64-outcome (pos (suc a)) (negsuc b) ha hb h =
    rw (*ℤ-pos_neg a b) (mul_int64-pos_neg a b (omega arith))
mul_int64-outcome (negsuc a) (pos zero) ha hb h =
    rw ((*ℤ-zero (negsuc a)).0, (mul_int64-zero (negsuc a)).0)
mul_int64-outcome (negsuc a) (pos (suc b)) ha hb h =
    rw (*ℤ-neg_pos a b) (mul_int64-neg_pos a b (omega arith))
mul_int64-outcome (negsuc a) (negsuc b) ha hb h = rw (*ℤ-neg_neg a b) (mul_int64-neg_neg a b)

-- The difference: undefined where the smallest integer is taken from one that is not negative,
-- nothing above the largest `int64_t`, and the literal of the exact integer otherwise.
abbrev pub difference : ℤ → ℤ → Outcome
difference a b =
    if not (ltb_ℤ a (pos 0)) && not (ltb_ℤ int64_min b)
    then undefined
    else if ltb_ℤ (pos int64_max) (a -ℤ b)
    then no_result
    else represent (a -ℤ b)

-- A difference of signed operands is undefined behaviour exactly where the smallest integer is
-- taken from one that is not negative. It folds to nothing where it exceeds the largest `int64_t`,
-- and to the literal of the exact integer, or nothing where there is none, everywhere else.
pub minus_int64-outcome : (a b : ℤ) → IsI64 a → IsI64 b → minus_int64 a b ≡ difference a b
unfolding minus_int64
minus_int64-outcome (pos a) (pos b) ha hb = ground arith
minus_int64-outcome (pos a) (negsuc b) ha hb = ground arith
minus_int64-outcome (negsuc a) (pos b) ha hb = ground arith
minus_int64-outcome (negsuc a) (negsuc b) ha hb = ground arith
