-- ===== src/Util/IntParser/Scientific.antt =====
-- Texts such as `1e6`: a coefficient of one digit, and an exponent.
use bpftrace.Util.Strtoull.{detect_base, finish, digit_below}
use bpftrace.Prelude.{
  ℕ, Bytes, ◌≢◌, ◌≤◌, ◌≡◌, ◌<◌, ◌⊎◌, none, false, true, ◌∙◌, Bool-cases, arith, ltb, inl, sym, inr,
  ◌-◌, ◌*◌, ◌^◌, [], ◌∷◌, if◌then◌else◌, ◌++◌, leb, some,
}
use bpftrace.Util.IntParser.{
  parse_integer, uint64_max, safe_exp, c_str, apply_exponent, has_exponent, strtoull, scale,
  remove_underscores, to_uint, Scan,
}
use bpftrace.Util.IntParser.Digits.{
  Digits, or_overflow, decimal, c_str-Digits, strtoull-decimal, detect_base-decimal,
  apply_suffix-none, no_prefix,
}
use bpftrace.Util.IntParser.Exponent.{safe_exp-exact}
use native.Mathlib.Nat.{pow-le-pow_right, mul-le-mul_right}
use mathlib.Core.List.{append-nil}

detect_base-ten : (c : ℕ) (s : Bytes) → c ≢ b'0' → detect_base 10 (c ∷ s) ≡ (10, c ∷ s)
unfolding detect_base
detect_base-ten c [] h = ground arith
detect_base-ten c (a ∷ []) h = ground arith
detect_base-ten c (a ∷ b ∷ s) h = ground arith

scaled_too_large : (b e : ℕ) → 1 ≤ b → 20 ≤ e → uint64_max < b * 10 ^ e
scaled_too_large b e p q =
    let big : 10 ^ 20 ≤ 10 ^ e = pow-le-pow_right (omega arith) q in
    let more : 1 * 10 ^ e ≤ b * 10 ^ e = mul-le-mul_right (10 ^ e) p in omega arith

safe_exp-too_large : (b e : ℕ) → 1 ≤ b → b ≤ uint64_max → 20 ≤ e → safe_exp b e ≡ none
safe_exp-too_large b e p q r = safe_exp-exact e b q ∙ ground (arith, scaled_too_large b e p r)

-- The clamp that `strtoull` puts on the exponent does not change the outcome.
safe_exp-clamped :
    (b e : ℕ) (t s : Bytes)
    → 1 ≤ b
    → b ≤ uint64_max
    → safe_exp b (finish false e t true s).value ≡ safe_exp b e
unfolding finish
safe_exp-clamped b e t s p q = elim (Bool-cases (ltb uint64_max e)) [
  | inl big ↦ rw big (
      safe_exp-too_large b uint64_max p q (omega arith)
      ∙ sym (safe_exp-too_large b e p q (ground arith)))
  | inr small ↦ rw small
]

-- The text begins with one digit, `e` or `E`, and a digit that is not zero.
pub record IsScientific (c e d : ℕ) (s : Bytes) : Type 0 where
  pub coefficient_low : b'1' ≤ c
  pub coefficient_high : c ≤ b'9'
  pub marker : (e ≡ b'e') ⊎ (e ≡ b'E')
  pub exponent_low : b'1' ≤ d
  pub exponent_high : d ≤ b'9'
  pub exponent_rest : Digits s

digit_below-marker : (e : ℕ) → (e ≡ b'e') ⊎ (e ≡ b'E') → digit_below 10 e ≡ none
unfolding digit_below
digit_below-marker e h = ground arith

c_str-scientific :
    (c e d : ℕ) (s : Bytes) → IsScientific c e d s → c_str (c ∷ e ∷ d ∷ s) ≡ c ∷ e ∷ d ∷ s
unfolding c_str
c_str-scientific c e d s h = ground (arith, c_str-Digits s h.exponent_rest)

finish_fields :
    (x : ℕ) (t s : Bytes)
    → ((finish false x t true s).rest ≡ t) × ((finish false x t true s).any ≡ true)
unfolding finish
finish_fields x t s = ground arith

scale-exact :
    (num : Bytes) (b v : ℕ) (exp : Scan)
    → exp.rest ≡ []
    → safe_exp b exp.value ≡ (if leb v uint64_max then some v else none)
    → scale num b exp ≡ or_overflow num v
unfolding scale
scale-exact num b v exp r e = ground (arith, apply_suffix-none num v)

scale-scientific :
    (num : Bytes) (b x : ℕ) (t : Bytes)
    → 1 ≤ b
    → b ≤ uint64_max
    → scale num b (finish false x [] true t) ≡ or_overflow num (b * 10 ^ x)
scale-scientific num b x t p q =
    scale-exact num b (b * 10 ^ x) (finish false x [] true t) (finish_fields x [] t).0
      (safe_exp-clamped b x [] t p q ∙ safe_exp-exact x b q)

apply_exponent-scientific :
    (num : Bytes) (c e d : ℕ) (s : Bytes)
    → IsScientific c e d s
    → apply_exponent num (c - 48) (e ∷ d ∷ s) ≡ or_overflow num ((c - 48) * 10 ^ decimal (d - 48) s)
unfolding apply_exponent
apply_exponent-scientific num c e d s h =
    let x = decimal (d - 48) s in
    let scan : strtoull (d ∷ s) 10 ≡ finish false x [] true (d ∷ s) = rw append-nil at (
      strtoull-decimal 10 d s [] (detect_base-ten d (s ++ []) (omega arith)) h.exponent_low
        h.exponent_high h.exponent_rest tt) in
    rw scan (
      ground (
        arith,
        finish_fields x [] (d ∷ s),
        scale-scientific num (c - 48) x (d ∷ s) (omega arith) (omega arith),
      ))

parse_integer-scientific :
    (num : Bytes) (c e d : ℕ) (s : Bytes)
    → IsScientific c e d s
    → parse_integer num (c ∷ e ∷ d ∷ s) 0 ≡ or_overflow num ((c - 48) * 10 ^ decimal (d - 48) s)
unfolding parse_integer has_exponent finish
parse_integer-scientific num c e d s h =
    let scan : strtoull (c ∷ e ∷ d ∷ s) 0 ≡ finish false (c - 48) (e ∷ d ∷ s) true (c ∷ e ∷ d ∷ s) =
      strtoull-decimal 0 c [] (e ∷ d ∷ s) (detect_base-decimal c (e ∷ d ∷ s) (omega arith))
        h.coefficient_low h.coefficient_high tt (digit_below-marker e h.marker) in
    rw (c_str-scientific c e d s h, scan) (ground (arith, apply_exponent-scientific num c e d s h))

-- Scientific notation, with underscores anywhere: the coefficient times the power of ten is the
-- result where it fits 64 bits, and an overflow is reported where it does not, however large the
-- exponent is.
pub to_uint-scientific :
    (num : Bytes) (c e d : ℕ) (s : Bytes)
    → remove_underscores num ≡ c ∷ e ∷ d ∷ s
    → IsScientific c e d s
    → to_uint num 0 ≡ or_overflow num ((c - 48) * 10 ^ decimal (d - 48) s)
to_uint-scientific num c e d s eq h =
    no_prefix num c (e ∷ d ∷ s) eq h.coefficient_low ∙ parse_integer-scientific num c e d s h
