-- ===== src/Util/IntParser/Bounds.antt =====
-- Every integer that the parser accepts fits its type.
use bpftrace.Prelude.{
  ℕ, ◌*◌, ◌/◌, ◌≤◌, ◌≡◌, some, arith, Bytes, [], ◌∷◌, Option-cases, inl, inr, zero, suc, ◌+◌, ◌^◌,
  ◌≢◌, leb, ◌==◌, if◌then◌else◌,
}
use bpftrace.Prelude.Int.{ℤ, pos, negsuc, ◌≤ℤ◌, sub_ℕ}
use bpftrace.Util.Strtoull.{uint64_max}
use bpftrace.Util.IntParser.{
  ok, int_config, apply_suffix, apply_exponent, parse_integer, to_uint_in_base, to_uint, value,
  to_int, scale, undefined, failed, overflow,
}

int_config-fits :
    (suffix : Bytes) (ret limit factor : ℕ)
    → int_config suffix ≡ some (limit, factor)
    → ret ≤ limit / factor
    → ret * factor ≤ uint64_max
unfolding int_config
int_config-fits suffix ret limit factor h r = ground arith

apply_suffix-le :
    (num : Bytes) (ret : ℕ) (suffix : Bytes) {v : ℕ}
    → apply_suffix num ret suffix ≡ ok v
    → v ≤ uint64_max
unfolding apply_suffix
apply_suffix-le num ret suffix h = elim (Option-cases (int_config suffix)) [
  | inl e ↦ cc
  | inr ((limit, factor), e) ↦ ground (arith, int_config-fits suffix ret limit factor e)
]

apply_exponent-le :
    (num : Bytes) (ret : ℕ) (rest : Bytes) {v : ℕ}
    → apply_exponent num ret rest ≡ ok v
    → v ≤ uint64_max
unfolding apply_exponent scale
apply_exponent-le num ret rest h = grind (arith, apply_suffix-le)

parse_integer-le :
    (num n : Bytes) (base : ℕ) {v : ℕ} → parse_integer num n base ≡ ok v → v ≤ uint64_max
unfolding parse_integer
parse_integer-le num n base h = grind (arith, apply_suffix-le, apply_exponent-le)

-- Whatever `to_uint` accepts, in any base and with any suffix, fits 64 bits: no product in it
-- wraps.
pub to_uint-le : (num : Bytes) (base : ℕ) {v : ℕ} → to_uint num base ≡ ok v → v ≤ uint64_max
unfolding to_uint to_uint_in_base
to_uint-le num base h = grind (arith, parse_integer-le)

-- Whatever `to_int` accepts lies in the range of `int64_t`.
to_int_bounds :
    (num : Bytes) (base : ℕ) {v : ℤ}
    → to_int num base ≡ value v
    → (negsuc 0x7fff_ffff_ffff_ffff ≤ℤ v) × (v ≤ℤ pos 0x7fff_ffff_ffff_ffff)
unfolding to_int
to_int_bounds [] base h = ground arith
to_int_bounds (c ∷ s) base h = ground arith

-- A text that begins with a minus sign: the value of the rest is negated where the result fits
-- `int64_t`, and an overflow is reported where it does not, but for one value, 2^63 + 1, at which
-- the negation itself overflows and the behaviour is undefined. The base holds for the rest.
pub to_int-negative :
    (s : Bytes) (base v : ℕ)
    → to_uint s base ≡ ok v
    → to_int (b'-' ∷ s) base ≡ (
        if leb v (2 ^ 63)
        then value (sub_ℕ 0 v)
        else if v == 2 ^ 63 + 1
        then undefined
        else failed (overflow (b'-' ∷ s) 0x7fff_ffff_ffff_ffff))
unfolding to_int
to_int-negative s base zero h = ground arith
to_int-negative s base (suc v) h = ground arith

-- A text with no sign is read in the base that its prefix tells, whatever base the caller asks for.
to_int-base_ignored :
    (c : ℕ) (s : Bytes) (base : ℕ) → c ≢ b'-' → to_int (c ∷ s) base ≡ to_int (c ∷ s) 0
unfolding to_int
to_int-base_ignored c s base h = ground arith
