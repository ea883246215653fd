-- ===== src/Util/IntParser.antt =====
-- src/util/int_parser.cpp: text to integers, with separators, base prefixes, exponents and
-- suffixes.
mod Exponent
pub mod Bounds
pub mod Digits
mod Scientific
mod Tests
use bpftrace.Prelude.{
  ℕ, zero, suc, ◌+◌, ◌-◌, ◌*◌, ◌/◌, ◌^◌, Bool, true, false, not, ◌&&◌, ◌||◌, Option, none, some,
  List, [], ◌∷◌, Bytes, codes, text_eq, starts_with, ltb, leb, ◌==◌, if◌then◌else◌, length, drop,
  ◌<◌, max, ap,
}
use bpftrace.Prelude.Int.{
  ℤ, pos, negsuc, pos_part, neg_part, sub_ℕ, ◌+ℤ◌, ◌-ℤ◌, ◌*ℤ◌, ◌≤ℤ◌, ltb_ℤ, +ℤ_parts, -ℤ_parts,
  eq_of_parts, int_laws,
}
use bpftrace.Util.Strtoull.{Scan, strtoull, uint64_max}

-- `OverflowError` and `NumberFormatError`, which carry the text and the limit or the message.
pub data Error : Type 0 where
  overflow : Bytes → ℕ → Error
  number_format : Bytes → Bytes → Error

pub data Result {ℓ} (A : Type ℓ) : Type ℓ where
  ok : A → Result A
  err : Error → Result A

-- The loop multiplies by ten and stops before a product that does not fit.
unfoldable pub safe_exp : ℕ → ℕ → Option ℕ
safe_exp result zero = some result
safe_exp result (suc exp) =
    let rest = safe_exp (result * 10) exp in if ltb (uint64_max / 10) result then none else rest

-- Drop all underscores.
unfoldable pub remove_underscores : Bytes → Bytes
remove_underscores [] = []
remove_underscores (c ∷ s) = if c == b'_' then remove_underscores s else c ∷ remove_underscores s

-- `c_str` ends at the first zero byte.
unfoldable pub c_str : Bytes → Bytes
c_str [] = []
c_str (c ∷ s) = if c == 0 then [] else c ∷ c_str s

-- The table `int_config`: the greatest value of the type, and the multiplier.
unfoldable pub int_config : Bytes → Option (ℕ × ℕ)
int_config suffix =
    if text_eq suffix []
    then some (uint64_max, 1)
    else if text_eq suffix (codes "u")
    then some (0xffff_ffff, 1)
    else if text_eq suffix (codes "ul") || text_eq suffix (codes "ull")
    then some (uint64_max, 1)
    else if text_eq suffix (codes "l") || text_eq suffix (codes "ll")
    then some (0x7fff_ffff_ffff_ffff, 1)
    else if text_eq suffix (codes "ns")
    then some (uint64_max, 1)
    else if text_eq suffix (codes "us")
    then some (uint64_max, 1000)
    else if text_eq suffix (codes "ms")
    then some (uint64_max, 1_000_000)
    else if text_eq suffix (codes "s")
    then some (uint64_max, 1_000_000_000)
    else if text_eq suffix (codes "m")
    then some (uint64_max, 60_000_000_000)
    else if text_eq suffix (codes "h")
    then some (uint64_max, 3_600_000_000_000)
    else if text_eq suffix (codes "d")
    then some (uint64_max, 86_400_000_000_000)
    else none

-- The last part of `to_uint`: the suffix, its range and its multiplier.
unfoldable pub apply_suffix : Bytes → ℕ → Bytes → Result ℕ
apply_suffix num ret suffix = elim (int_config suffix) [
  | none ↦ err (number_format (codes "invalid trailing bytes") num)
  | some (limit, factor) ↦
      if ltb (limit / factor) ret then err (overflow num limit) else ok (ret * factor)
]

-- `e` or `E` and a digit from 1 to 9 begin an exponent.
unfoldable pub has_exponent : Bytes → Bool
has_exponent (e ∷ d ∷ s) = (e == b'e' || e == b'E') && (leb b'1' d && leb d b'9')
has_exponent _ = false

-- The result is computed so that it never overflows, once the exponent is scanned.
unfoldable pub scale : Bytes → ℕ → Scan → Result ℕ
scale num ret exp = elim (safe_exp ret exp.value) [
  | none ↦ err (overflow num uint64_max)
  | some r ↦ apply_suffix num r exp.rest
]

-- The branch of `to_uint` for scientific notation.
unfoldable pub apply_exponent : Bytes → ℕ → Bytes → Result ℕ
apply_exponent num ret rest =
    let exp = strtoull (drop 1 rest) 10 in
    if leb ret 0 || leb 10 ret
    then err (number_format (codes "coefficient part of scientific literal must be 1-9") num)
    else if exp.value == 0 && not exp.any
    then err (number_format (codes "invalid exponent") num)
    else scale num ret exp

-- `to_uint` from the call of `strtoull` on; `n` is the text without underscores.
unfoldable pub parse_integer : Bytes → Bytes → ℕ → Result ℕ
parse_integer num n base =
    let scan = strtoull (c_str n) base in
    if scan.value == 0 && not scan.any
    then err (number_format (codes "invalid integer") num)
    else if scan.value == uint64_max && scan.overflowed
    then err (overflow num uint64_max)
    else if has_exponent scan.rest
    then apply_exponent num scan.value scan.rest
    else apply_suffix num scan.value scan.rest

-- `to_uint` in a base that is given: no prefix is looked for.
unfoldable pub to_uint_in_base : Bytes → ℕ → Result ℕ
to_uint_in_base num base = parse_integer num (remove_underscores num) base

-- A zero, then an octal digit.
unfoldable pub has_octal_prefix : Bytes → Bool
has_octal_prefix (z ∷ d ∷ s) = z == b'0' && (leb b'0' d && leb d b'7')
has_octal_prefix _ = false

-- The base is found by the prefix where none is given; the call that this makes has a base.
unfoldable pub to_uint : Bytes → ℕ → Result ℕ
to_uint num base =
    let n = remove_underscores num in
    if base == 0 && leb 2 (length n)
    then if starts_with n (codes "0x") || starts_with n (codes "0X")
      then to_uint_in_base (drop 2 n) 16
      else if starts_with n (codes "0b") || starts_with n (codes "0B")
      then to_uint_in_base (drop 2 n) 2
      else if has_octal_prefix n
      then to_uint_in_base (drop 1 n) 8
      else parse_integer num n base
    else parse_integer num n base

-- The outcome of `to_int`. `undefined` stands for a negation that overflows `int64_t`.
pub data Signed : Type 0 where
  value : ℤ → Signed
  failed : Error → Signed
  undefined : Signed

-- `-static_cast<int64_t>(v - 1) - 1` for an unsigned 64-bit `v`, and the test of its sign.
unfoldable pub negate : Bytes → ℕ → Signed
negate num zero = value (pos 0)
negate num (suc m) =
    if leb m 0x7fff_ffff_ffff_ffff
    then value (negsuc m)
    else if m == 0x8000_0000_0000_0000
    then undefined
    else failed (overflow num 0x7fff_ffff_ffff_ffff)

-- The text with its first byte split off decides the sign; without one the base is not passed on.
unfoldable pub to_int : Bytes → ℕ → Signed
unfolding negate
to_int [] base = value (pos 0)
to_int (c ∷ s) base =
    if c == b'-'
    then elim (to_uint s base) [ err e ↦ failed e | ok v ↦ negate (c ∷ s) v ]
    else elim (to_uint (c ∷ s) 0) [
      | err e ↦ failed e
      | ok v ↦
          if ltb 0x7fff_ffff_ffff_ffff v
          then failed (overflow (c ∷ s) 0x7fff_ffff_ffff_ffff)
          else value (pos v)
    ]
