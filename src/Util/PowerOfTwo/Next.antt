-- ===== src/Util/PowerOfTwo/Next.antt =====
-- The power of two that `round_up_to_next_power_of_two` returns.
use bpftrace.Util.PowerOfTwo.{smear, round_up_to_next_power_of_two}
use native.Mathlib.Numerals.{unary_clauses}
use bpftrace.Util.PowerOfTwo.Smear.{smear-half, smear-low}
use bpftrace.Prelude.{
  ℕ, zero, suc, ◌+◌, ◌-◌, ◌*◌, ◌/◌, ◌%◌, ◌^◌, ◌≤◌, ◌<◌, ◌≡◌, refl, ap, ◌∙◌, inl, inr, some, arith,
  ltb, ◌==◌, ==_iff, Bool-cases, false,
}

-- A power of two above a number, and the least one.
record PowerAbove (x y : ℕ) : Type 0 where
  exponent : ℕ
  is_power : y ≡ 2 ^ exponent
  above : x < y
  least : y ≤ 2 * x

two_pow : (e : ℕ) → 2 * 2 ^ e ≡ 2 ^ suc e
two_pow e = simp unary_clauses (omega arith)

smear-zero : smear 0 ≡ 0
unfolding smear
smear-zero = refl

smear-one : smear 1 ≡ 1
unfolding smear
smear-one = refl

smear-PowerAbove : (fuel x : ℕ) → x ≤ fuel → 0 < x → x < 4294967296 → PowerAbove x (smear x + 1)
smear-PowerAbove zero x f p h = absurd (omega (arith, f, p))
smear-PowerAbove (suc fuel) x f p h = elim (Bool-cases (ltb x 2)) [
  | inl small ↦
      let one : x ≡ 1 = ground (arith, small, p) in
      rw (one, smear-one)
        (record { exponent = 1; is_power = refl; above = omega arith; least = omega arith })
  | inr more ↦
      let big : 2 ≤ x = ground (arith, more) in
      let half =
        smear-PowerAbove fuel (x / 2) (omega (arith, f, p)) (omega (arith, big))
          (omega (arith, h)) in
      let odd : smear x % 2 ≡ 1 = elim (Bool-cases (smear x % 2 == 0)) [
        | inl e ↦ absurd (omega (arith, smear-low x ((==_iff _ 0).0 e), h, p))
        | inr e ↦ ground (arith, e)
      ] in
      let doubled : smear x + 1 ≡ 2 * (smear (x / 2) + 1) = omega (arith, odd, smear-half x) in
      record {
        exponent = suc half.exponent;
        is_power = doubled ∙ ap (λ y. 2 * y) half.is_power ∙ two_pow half.exponent;
        above = omega (arith, doubled, half.above);
        least = omega (arith, doubled, half.least);
      }
]

next_power :
    (n : ℕ)
    → 0 < n
    → n ≤ 2 ^ 31
    → (e : ℕ) × (smear (n - 1) + 1 ≡ 2 ^ e) × (n ≤ 2 ^ e) × (2 ^ e < 2 * n)
next_power n p h = elim (Bool-cases (n == 1)) [
  | inl one ↦ rw ((==_iff n 1).0 one) (0, rw smear-zero refl, omega arith, omega arith)
  | inr more ↦
      let w =
        smear-PowerAbove (n - 1) (n - 1) (omega arith) (ground (arith, p, more))
          (omega (arith, h)) in
      let is = w.is_power in
      (w.exponent, is, omega (arith, p, w.above, is), omega (arith, p, w.least, is))
]

-- From 1 up to 2 ^ 31, the result is the least power of two that is not below the number.
pub round_up_to_next_power_of_two_lem :
    (n : ℕ)
    → 0 < n
    → n ≤ 2 ^ 31
    → (e : ℕ) × (round_up_to_next_power_of_two n ≡ some (2 ^ e)) × (n ≤ 2 ^ e) × (2 ^ e < 2 * n)
unfolding round_up_to_next_power_of_two
round_up_to_next_power_of_two_lem n p h =
    let (e, is, above, least) = next_power n p h in
    let zero_test : (n == 0) ≡ false = ground (arith, p) in
    let range_test : ltb (2 ^ 31) n ≡ false = ground (arith, h) in
    let fits : 2 ^ e % 2 ^ 32 ≡ 2 ^ e = omega (arith, least, h) in
    (e, rw (zero_test, range_test, is, fits) refl, above, least)
