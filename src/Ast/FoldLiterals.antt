-- ===== src/Ast/FoldLiterals.antt =====
-- src/ast/passes/fold_literals.cpp: evaluation of operators on literals.
mod Unsigned
mod Signed
pub mod Binop
pub mod Visit
mod Logic
mod Tuples
mod Tests
use bpftrace.Ast.Expr.{Operator, plus, minus, mul, div, mod_op, band, bor, bxor, left, right}
use bpftrace.Prelude.{
  ℕ, zero, suc, ◌+◌, ◌-◌, ◌*◌, ◌/◌, ◌%◌, ◌^◌, ◌<◌, min, max, Bool, true, false, not, ◌&&◌, ◌||◌,
  Option, none, some, ◌++◌, arith, ltb, leb, ◌==◌, if◌then◌else◌,
}
use bpftrace.Prelude.Int.{
  ℤ, pos, negsuc, pos_part, neg_part, sub_ℕ, ◌+ℤ◌, ◌-ℤ◌, ◌*ℤ◌, ◌≤ℤ◌, ltb_ℤ, +ℤ_parts, -ℤ_parts,
  eq_of_parts, int_laws,
}
use Prim.Native.Nat.{bit_and, bit_or, bit_xor}

abbrev pub int64_max : ℕ
int64_max = 0x7fff_ffff_ffff_ffff

abbrev pub int64_min : ℤ
int64_min = negsuc int64_max

-- `std::variant<uint64_t, int64_t>`.
pub data Number : Type 0 where
  unsigned : ℕ → Number
  signed : ℤ → Number

-- What `eval_binop` does: a value, `nullopt`, an operation that C++ leaves undefined (an overflow
-- of `int64_t`), or the report of a bug in the caller.
pub data Outcome : Type 0 where
  result : Number → Outcome
  no_result : Outcome
  undefined : Outcome
  bug : Outcome

-- `eval_binop` at `uint64_t`.
unfoldable pub eval_uint64 : Operator → ℕ → ℕ → Outcome
eval_uint64 plus a b =
    if a == 0 || b == 0
    then result (unsigned ((a + b) % 2 ^ 64))
    else let res = (a + b) % 2 ^ 64 in
      if ltb a res && ltb b res then result (unsigned res) else no_result
eval_uint64 minus a b =
    if leb b a
    then result (unsigned (a - b))
    else let delta = b - a - 1 in
      if ltb int64_max delta then no_result else result (signed (negsuc delta))
eval_uint64 mul a b =
    if a == 0 || b == 0
    then result (unsigned 0)
    else let res = a * b % 2 ^ 64 in if res / a == b then result (unsigned res) else no_result
eval_uint64 div a b = if b == 0 then no_result else result (unsigned (a / b))
eval_uint64 mod_op a b = if b == 0 then no_result else result (unsigned (a % b))
eval_uint64 band a b = result (unsigned (bit_and a b))
eval_uint64 bor a b = result (unsigned (bit_or a b))
eval_uint64 bxor a b = result (unsigned (bit_xor a b))
eval_uint64 left a b = if leb 64 b then no_result else result (unsigned (a * 2 ^ b % 2 ^ 64))
eval_uint64 right a b = if leb 64 b then no_result else result (unsigned (a / 2 ^ b))
eval_uint64 _ a b = bug

-- The lambda `clamp` at `int64_t`: what is not negative becomes unsigned.
abbrev pub clamp : ℤ → Outcome
clamp (pos n) = result (unsigned n)
clamp (negsuc n) = result (signed (negsuc n))

-- The result of arithmetic at `int64_t`, which is undefined where it does not fit.
abbrev pub in_int64 : ℤ → (ℤ → Outcome) → Outcome
in_int64 (pos n) k = if leb n int64_max then k (pos n) else undefined
in_int64 (negsuc n) k = if leb n int64_max then k (negsuc n) else undefined

abbrev pub is_zero : ℤ → Bool
is_zero (pos n) = n == 0
is_zero (negsuc n) = false

abbrev pub is_positive : ℤ → Bool
is_positive (pos n) = ltb 0 n
is_positive (negsuc n) = false

abbrev pub is_negative : ℤ → Bool
is_negative (pos n) = false
is_negative (negsuc n) = true

-- `-n`, and `n` with the sign that is given.
abbrev pub with_sign : Bool → ℕ → ℤ
with_sign negative n = if negative then sub_ℕ 0 n else pos n

-- Division and remainder of C++: towards zero, the remainder with the sign of the dividend.
unfoldable pub quotient : ℤ → ℤ → ℤ
quotient (pos a) (pos b) = pos (a / b)
quotient (pos a) (negsuc b) = with_sign true (a / suc b)
quotient (negsuc a) (pos b) = with_sign true (suc a / b)
quotient (negsuc a) (negsuc b) = pos (suc a / suc b)

unfoldable pub remainder : ℤ → ℤ → ℤ
remainder (pos a) (pos b) = pos (a % b)
remainder (pos a) (negsuc b) = pos (a % suc b)
remainder (negsuc a) (pos b) = with_sign true (suc a % b)
remainder (negsuc a) (negsuc b) = with_sign true (suc a % suc b)

-- The bits of an `int64_t`, and the value that 64 bits stand for.
abbrev pub to_bits : ℤ → ℕ
to_bits (pos n) = n
to_bits (negsuc n) = 2 ^ 64 - 1 - n

abbrev pub of_bits : ℕ → ℤ
of_bits w = if leb w int64_max then pos w else negsuc (2 ^ 64 - 1 - w)

-- Arithmetic right shift.
abbrev pub shift_right : ℤ → ℕ → ℤ
shift_right (pos n) k = pos (n / 2 ^ k)
shift_right (negsuc n) k = negsuc (n / 2 ^ k)

-- The magnitude of a number that is not positive, as `static_cast<uint64_t>(-(v + 1)) + 1`.
abbrev pub magnitude : ℤ → ℕ
magnitude (pos n) = n
magnitude (negsuc n) = suc n

-- `eval_binop` at `int64_t`, case by case.
unfoldable pub plus_int64 : ℤ → ℤ → Outcome
unfolding ◌+ℤ◌ ◌-ℤ◌
plus_int64 a b =
    let res = (magnitude a + magnitude b) % 2 ^ 64 in
    if is_zero a || is_zero b
    then in_int64 (a +ℤ b) clamp
    else if is_positive a && is_positive b
    then if ltb (magnitude a) res && ltb (magnitude b) res then result (unsigned res) else no_result
    else if is_positive a && is_negative b || is_negative a && is_positive b
    then in_int64 (a +ℤ b) clamp
    else if is_negative a && is_negative b
    then if ltb_ℤ b (int64_min -ℤ a) then no_result else in_int64 (a +ℤ b) (λ v. result (signed v))
    else no_result

-- The test `max - left < -right` of the case `left > 0 && right < 0`, and what follows it.
abbrev minus_negative : ℤ → ℤ → ℤ → Outcome
minus_negative a b negated =
    if ltb_ℤ (pos int64_max -ℤ a) negated then no_result else in_int64 (a -ℤ b) clamp

unfoldable pub minus_int64 : ℤ → ℤ → Outcome
unfolding ◌-ℤ◌
minus_int64 a b =
    if is_zero b
    then clamp a
    else if is_positive a && is_negative b
    then in_int64 (pos 0 -ℤ b) (minus_negative a b)
    else if is_negative a && is_positive b
    then if ltb_ℤ (pos 0 -ℤ b) (int64_min -ℤ a) then no_result else in_int64 (a -ℤ b) clamp
    else in_int64 (a -ℤ b) clamp

unfoldable pub mul_int64 : ℤ → ℤ → Outcome
mul_int64 a b =
    if is_zero a || is_zero b
    then result (unsigned 0)
    else if is_negative a && is_negative b
    then eval_uint64 mul (magnitude a) (magnitude b)
    else in_int64 (a *ℤ b) λ res.
      in_int64 (quotient res a)
        λ back. if ltb_ℤ back b || ltb_ℤ b back then no_result else clamp res

unfoldable pub div_int64 : ℤ → ℤ → Outcome
unfolding quotient
div_int64 a b = if is_zero b then no_result else in_int64 (quotient a b) clamp

-- The remainder is undefined where the quotient is.
unfoldable pub mod_int64 : ℤ → ℤ → Outcome
unfolding quotient remainder
mod_int64 a b =
    if is_zero b then no_result else in_int64 (quotient a b) (λ _. clamp (remainder a b))

-- The test `right < 0 || right >= 64`.
abbrev pub shift_amount : ℤ → Option ℕ
shift_amount (pos k) = if leb 64 k then none else some k
shift_amount (negsuc k) = none

unfoldable pub eval_int64 : Operator → ℤ → ℤ → Outcome
eval_int64 plus a b = plus_int64 a b
eval_int64 minus a b = minus_int64 a b
eval_int64 mul a b = mul_int64 a b
eval_int64 div a b = div_int64 a b
eval_int64 mod_op a b = mod_int64 a b
eval_int64 band a b = clamp (of_bits (bit_and (to_bits a) (to_bits b)))
eval_int64 bor a b = clamp (of_bits (bit_or (to_bits a) (to_bits b)))
eval_int64 bxor a b = clamp (of_bits (bit_xor (to_bits a) (to_bits b)))
eval_int64 left a b = elim (shift_amount b) [
  | none ↦ no_result
  | some k ↦ clamp (of_bits (to_bits a * 2 ^ k % 2 ^ 64))
]
eval_int64 right a b = elim (shift_amount b) [ none ↦ no_result | some k ↦ clamp (shift_right a k) ]
eval_int64 _ a b = bug
