-- ===== src/Util/IntParser/Exponent.antt =====
-- `safe_exp`: multiplication by a power of ten that never leaves 64 bits.
use bpftrace.Prelude.{
  ℕ, zero, suc, ◌*◌, ◌/◌, ◌^◌, ◌≤◌, ◌<◌, ◌≡◌, ◌∙◌, ap, sym, none, some, arith, ltb, leb, Bool-cases,
  inl, inr, if◌then◌else◌,
}
use native.Mathlib.Nat.{mul_assoc, mul-one, pow-suc, pow-succ', le-mul_of_pos_right}
use bpftrace.Util.Strtoull.{uint64_max}
use bpftrace.Util.IntParser.{safe_exp}

step_pow : (b e : ℕ) → b * 10 * 10 ^ e ≡ b * 10 ^ suc e
step_pow b e = mul_assoc b 10 (10 ^ e) ∙ ap (λ t. b * t) (sym (pow-succ' 10 e))

pow_pos : (e : ℕ) → 0 < 10 ^ e
pow_pos zero = omega arith
pow_pos (suc e) = rw (pow-suc 10 e) (omega (arith, pow_pos e))

le_scaled : (b e : ℕ) → b ≤ b * 10 ^ e
le_scaled b e = le-mul_of_pos_right b (pow_pos e)

-- `safe_exp` yields the product with the power of ten exactly where that product fits 64 bits, and
-- nothing otherwise.
pub safe_exp-exact :
    (exp base : ℕ)
    → base ≤ uint64_max
    → safe_exp base exp
      ≡ (if leb (base * 10 ^ exp) uint64_max then some (base * 10 ^ exp) else none)
unfolding safe_exp
safe_exp-exact zero base h = rw mul-one (ground arith)
safe_exp-exact (suc exp) base h =
    rw (← step_pow base exp) (elim (Bool-cases (ltb (uint64_max / 10) base)) [
      | inl big ↦ ground (arith, le_scaled (base * 10) exp)
      | inr small ↦ rw (small) (safe_exp-exact exp (base * 10) (ground arith))
    ])
