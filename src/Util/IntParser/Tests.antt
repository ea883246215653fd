-- ===== src/Util/IntParser/Tests.antt =====
-- Runs of the integer parser, and the theorems about it at concrete texts.
use bpftrace.Util.Strtoull.{strtoull, skip_spaces, split_sign, detect_base, scan_digits, finish}
use bpftrace.Util.IntParser.{
  Result, ok, err, overflow, number_format, safe_exp, to_uint, to_uint_in_base, remove_underscores,
  parse_integer, c_str, has_exponent, apply_exponent, apply_suffix, int_config, scale,
  has_octal_prefix,
}
use bpftrace.Util.IntParser.Digits.{to_uint-decimal, or_overflow, decimal}
use bpftrace.Prelude.{ℕ, ◌≡◌, refl, [], ◌∷◌, arith, Bytes, codes}

-- A run of the parser computes with all of its parts.
read_text : Bytes → ℕ → Result ℕ
unfolding to_uint to_uint_in_base parse_integer remove_underscores c_str has_octal_prefix
    has_exponent apply_exponent scale safe_exp apply_suffix int_config strtoull skip_spaces
    split_sign detect_base scan_digits finish
read_text s base = to_uint s base

hexadecimal : to_uint (codes "0xFf_0") 0 ≡ (ok 4080)
unfolding read_text
hexadecimal = refl

milliseconds : to_uint (codes "250ms") 0 ≡ (ok 250_000_000)
unfolding read_text
milliseconds = refl

wide_suffix : to_uint (codes "4294967296u") 0 ≡ (err (overflow (codes "4294967296u") 0xffff_ffff))
unfolding read_text
wide_suffix = refl

two_digit_coefficient : to_uint (codes "12e3") 0 ≡ (
    err (number_format (codes "coefficient part of scientific literal must be 1-9") (codes "12e3")))
unfolding read_text
two_digit_coefficient = refl

millions : to_uint (codes "5e6") 0 ≡ (ok 5_000_000)
unfolding read_text
millions = refl

abbrev grouped : Bytes
grouped = codes "1_234"

grouped_value : to_uint grouped 0 ≡ (ok 1234)
unfolding read_text
grouped_value = refl

abbrev ungrouped : Bytes
ungrouped = codes "234"

grouped_digits : remove_underscores grouped ≡ b'1' ∷ ungrouped
unfolding remove_underscores
grouped_digits = refl

exponent_digits : remove_underscores (codes "1e2_5") ≡ b'1' ∷ b'e' ∷ b'2' ∷ b'5' ∷ []
unfolding remove_underscores
exponent_digits = refl

to_uint-decimal_example : to_uint grouped 0 ≡ or_overflow grouped (decimal 1 ungrouped)
to_uint-decimal_example =
    to_uint-decimal grouped b'1' ungrouped grouped_digits (omega arith) (omega arith) (omega arith)

thousand_digits : to_uint (codes "1000") 10 ≡ ok 1000
unfolding read_text
thousand_digits = refl
