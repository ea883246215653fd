-- ===== src/Util/IntParser/Digits.antt =====
-- Texts of decimal digits: what the parser makes of them, with separators and with an exponent.
use bpftrace.Prelude.{
  ℕ, ◌+◌, ◌-◌, ◌*◌, ◌≤◌, ◌≡◌, refl, ◌≢◌, true, false, none, [], ◌∷◌, ◌++◌, arith, Bytes, ltb,
  if◌then◌else◌, ◌∙◌, codes,
}
use mathlib.Core.List.{append-nil}
use bpftrace.Util.IntParser.{
  to_uint, parse_integer, Result, ok, err, overflow, int_config, apply_suffix, remove_underscores,
  has_exponent, has_octal_prefix, c_str,
}
use bpftrace.Util.Strtoull.{
  uint64_max, strtoull, finish, scan_digits, digit_below, detect_base, split_sign, skip_spaces,
}

abbrev pub IsDigit : ℕ → Type 0
IsDigit c = (b'0' ≤ c) × (c ≤ b'9')

abbrev pub Digits : Bytes → Type 0
Digits [] = Unit
Digits (c ∷ s) = IsDigit c × Digits s

-- The number that a text of digits stands for, read from `acc` on.
abbrev pub decimal : ℕ → Bytes → ℕ
decimal acc [] = acc
decimal acc (c ∷ s) = decimal (acc * 10 + (c - 48)) s

-- A text at which a scan in base ten stops.
abbrev pub Stops : Bytes → Type 0
Stops [] = Unit
Stops (c ∷ s) = digit_below 10 c ≡ none

pub scan_digits-decimal :
    (s rest : Bytes) (acc : ℕ)
    → Digits s
    → Stops rest
    → scan_digits 10 acc true (s ++ rest) ≡ (decimal acc s, rest, true)
unfolding scan_digits
scan_digits-decimal [] [] acc d h = refl
scan_digits-decimal [] (c ∷ rest) acc d h = rw (h, scan_digits)
scan_digits-decimal (c ∷ s) rest acc d h =
    ground (arith, scan_digits-decimal s rest (acc * 10 + (c - 48)) d.1 h)

pub c_str-Digits : (s : Bytes) → Digits s → c_str s ≡ s
unfolding c_str
c_str-Digits [] d = refl
c_str-Digits (c ∷ s) d = ground (arith, c_str-Digits s d.1)

pub c_str-append : (s rest : Bytes) → Digits s → c_str (s ++ rest) ≡ s ++ c_str rest
unfolding c_str
c_str-append [] rest d = refl
c_str-append (c ∷ s) rest d = ground (arith, c_str-append s rest d.1)

pub detect_base-decimal : (c : ℕ) (s : Bytes) → c ≢ b'0' → detect_base 0 (c ∷ s) ≡ (10, c ∷ s)
unfolding detect_base
detect_base-decimal c [] h = ground arith
detect_base-decimal c (a ∷ []) h = ground arith
detect_base-decimal c (a ∷ b ∷ s) h = ground arith

module _ (c : ℕ) (t : Bytes) (low : b'1' ≤ c) (high : c ≤ b'9') where
  skip_spaces-digit : skip_spaces (c ∷ t) ≡ c ∷ t
  unfolding skip_spaces
  skip_spaces-digit = ground arith

  split_sign-digit : split_sign (c ∷ t) ≡ (false, c ∷ t)
  unfolding split_sign
  split_sign-digit = ground arith

  scan_digits-digit : scan_digits 10 0 false (c ∷ t) ≡ scan_digits 10 (c - 48) true t
  unfolding scan_digits
  scan_digits-digit = ground arith

-- A first digit from 1 to 9: there are no blanks and no sign, and the base is ten.
pub strtoull-decimal :
    (base c : ℕ) (s rest : Bytes)
    → detect_base base (c ∷ (s ++ rest)) ≡ (10, c ∷ (s ++ rest))
    → b'1' ≤ c
    → c ≤ b'9'
    → Digits s
    → Stops rest
    → strtoull (c ∷ (s ++ rest)) base
      ≡ finish false (decimal (c - 48) s) rest true (c ∷ (s ++ rest))
unfolding strtoull
strtoull-decimal base c s rest e low high d h =
    let t = s ++ rest in
    rw (
      skip_spaces-digit c t low high,
      split_sign-digit c t low high,
      e,
      scan_digits-digit c t low high,
      scan_digits-decimal s rest (c - 48) d h,
    )

-- The value that a sequence of digits is accepted with, or the error for one that is too large.
abbrev pub or_overflow : Bytes → ℕ → Result ℕ
or_overflow num v = if ltb uint64_max v then err (overflow num uint64_max) else ok v

pub no_prefix :
    (num : Bytes) (c : ℕ) (s : Bytes)
    → remove_underscores num ≡ c ∷ s
    → b'1' ≤ c
    → to_uint num 0 ≡ parse_integer num (c ∷ s) 0
unfolding to_uint has_octal_prefix
no_prefix num c [] e low = rw e (ground arith)
no_prefix num c (d ∷ s) e low = rw e (ground arith)

pub apply_suffix-none : (num : Bytes) (v : ℕ) → v ≤ uint64_max → apply_suffix num v [] ≡ ok v
unfolding apply_suffix int_config
apply_suffix-none num v h = ground arith

parse_integer-decimal :
    (num : Bytes) (c : ℕ) (s : Bytes)
    → b'1' ≤ c
    → c ≤ b'9'
    → Digits s
    → parse_integer num (c ∷ s) 0 ≡ or_overflow num (decimal (c - 48) s)
unfolding parse_integer has_exponent finish
parse_integer-decimal num c s low high d =
    let t : strtoull (c ∷ s) 0 ≡ finish false (decimal (c - 48) s) [] true (c ∷ s) =
      rw append-nil at
        (strtoull-decimal 0 c s [] (detect_base-decimal c (s ++ []) (omega arith)) low high d tt) in
    rw (c_str-Digits (c ∷ s) ((omega arith, high), d), t)
      (ground (arith, apply_suffix-none num (decimal (c - 48) s)))

-- A decimal text without a leading zero, with underscores anywhere in it, is read as the number
-- that its digits stand for, or refused as too large when that number exceeds 64 bits.
pub to_uint-decimal :
    (num : Bytes) (c : ℕ) (s : Bytes)
    → remove_underscores num ≡ c ∷ s
    → b'1' ≤ c
    → c ≤ b'9'
    → Digits s
    → to_uint num 0 ≡ or_overflow num (decimal (c - 48) s)
to_uint-decimal num c s e low high d =
    no_prefix num c s e low ∙ parse_integer-decimal num c s low high d

pub to_uint_one : to_uint (codes "1") 10 ≡ ok 1
unfolding to_uint parse_integer strtoull finish scan_digits detect_base split_sign skip_spaces c_str
    remove_underscores has_exponent apply_suffix int_config
to_uint_one = refl

pub to_uint_zero : to_uint (codes "0") 0 ≡ ok 0
unfolding to_uint parse_integer strtoull finish scan_digits detect_base split_sign skip_spaces c_str
    remove_underscores has_exponent has_octal_prefix apply_suffix int_config
to_uint_zero = refl

pub remove_underscores-Digits : (s : Bytes) → Digits s → remove_underscores s ≡ s
unfolding remove_underscores
remove_underscores-Digits [] d = refl
remove_underscores-Digits (c ∷ s) d = ground (arith, remove_underscores-Digits s d.1, d.0)

pub or_overflow-fits : (num : Bytes) (v : ℕ) → v ≤ uint64_max → or_overflow num v ≡ ok v
or_overflow-fits num v h = ground (arith, h)
