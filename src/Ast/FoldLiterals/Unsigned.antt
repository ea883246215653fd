-- ===== src/Ast/FoldLiterals/Unsigned.antt =====
-- `eval_binop` at `uint64_t` against the arithmetic of the integers.
use bpftrace.Ast.Expr.{plus, minus, mul}
use bpftrace.Prelude.{
  ℕ, ◌*◌, ◌/◌, ◌%◌, ◌^◌, ◌≤◌, ◌<◌, ◌≡◌, ◌≢◌, arith, ltb, leb, if◌then◌else◌, zero, suc, inl, inr,
  ltb→lt, Bool-cases,
}
use bpftrace.Prelude.Int.{ℤ, pos, negsuc, ◌+ℤ◌, ◌-ℤ◌, ◌*ℤ◌}
use bpftrace.Ast.FoldLiterals.{eval_uint64, unsigned, result, signed, no_result, Outcome, int64_max}
use native.Mathlib.Nat.{mul-div_right, mul_comm, mod-lt, div-lt_iff_lt-mul, zero-mul, mul-zero}

-- The literal for an integer: unsigned where it can be, signed where it must be, none where it fits
-- neither `uint64_t` nor `int64_t`.
abbrev pub represent : ℤ → Outcome
represent (pos n) = if ltb n (2 ^ 64) then result (unsigned n) else no_result
represent (negsuc n) = if leb n int64_max then result (signed (negsuc n)) else no_result

-- An operand of type `uint64_t`.
abbrev pub IsU64 : ℕ → Type 0
IsU64 n = n < 2 ^ 64

pub eval_uint64-plus :
    (a b : ℕ) → IsU64 a → IsU64 b → eval_uint64 plus a b ≡ represent (pos a +ℤ pos b)
unfolding eval_uint64 ◌+ℤ◌
eval_uint64-plus a b ha hb = ground arith

eval_uint64-minus :
    (a b : ℕ) → IsU64 a → IsU64 b → eval_uint64 minus a b ≡ represent (pos a -ℤ pos b)
unfolding eval_uint64 ◌-ℤ◌
eval_uint64-minus a b ha hb = ground arith

-- Where a product wraps, the division cannot give the other factor back.
wrapped_quotient : (a b m : ℕ) → 0 < a → 0 < m → m ≤ a * b → a * b % m / a ≢ b
wrapped_quotient a b m p q h e =
    let small : a * b % m < b * a = rw (mul_comm b a) (omega (arith, mod-lt (a * b) q)) in
    omega (arith, (div-lt_iff_lt-mul p).1 small)

exact_quotient : (a b : ℕ) → 0 < a → a * b / a ≡ b
exact_quotient a b p = mul-div_right b p

exact_mod : (n : ℕ) → n < 2 ^ 64 → n % 2 ^ 64 ≡ n
exact_mod n h = omega arith

mul_positive :
    (a b : ℕ)
    → 0 < a
    → 0 < b
    → eval_uint64 mul a b ≡ (if ltb (a * b) (2 ^ 64) then result (unsigned (a * b)) else no_result)
unfolding eval_uint64
mul_positive a b p q = elim (Bool-cases (ltb (a * b) (2 ^ 64))) [
  | inl fits ↦ ground (arith, exact_mod (a * b) (ltb→lt _ _ fits), exact_quotient a b p)
  | inr wraps ↦ ground (arith, wrapped_quotient a b (2 ^ 64) p)
]

pub eval_uint64-mul :
    (a b : ℕ)
    → eval_uint64 mul a b ≡ (if ltb (a * b) (2 ^ 64) then result (unsigned (a * b)) else no_result)
unfolding eval_uint64
eval_uint64-mul zero b = rw (zero-mul b)
eval_uint64-mul (suc a) zero = rw (mul-zero (suc a)) (ground arith)
eval_uint64-mul (suc a) (suc b) = mul_positive (suc a) (suc b) (omega arith) (omega arith)

eval_uint64-mul_represent : (a b : ℕ) → eval_uint64 mul a b ≡ represent (pos a *ℤ pos b)
unfolding ◌*ℤ◌
eval_uint64-mul_represent a b = ground (arith, eval_uint64-mul a b)

-- On unsigned literals, sums, differences and products fold to the literal of the exact integer,
-- and fold to nothing exactly where no literal holds that integer.
pub eval_uint64-exact :
    (a b : ℕ)
    → IsU64 a
    → IsU64 b
    → (eval_uint64 plus a b ≡ represent (pos a +ℤ pos b))
      × (eval_uint64 minus a b ≡ represent (pos a -ℤ pos b))
      × (eval_uint64 mul a b ≡ represent (pos a *ℤ pos b))
eval_uint64-exact a b ha hb =
    (eval_uint64-plus a b ha hb, eval_uint64-minus a b ha hb, eval_uint64-mul_represent a b)
