-- ===== src/Util/Decimal/Read.antt =====
-- A printed number is read as what it was.
use bpftrace.Prelude.{
  ℕ, zero, suc, ◌+◌, ◌-◌, ◌*◌, ◌/◌, ◌%◌, ◌^◌, ◌≤◌, ◌<◌, ◌≡◌, refl, ap, ◌∙◌, inl, inr, [], ◌∷◌, ◌++◌,
  arith, ltb, Bool-cases, Bytes, sym, ◌⊎◌, false, text_eq,
}
use bpftrace.Util.IntParser.Digits.{
  decimal, Digits, to_uint_zero, remove_underscores-Digits, to_uint-decimal, or_overflow,
  or_overflow-fits,
}
use bpftrace.Util.Decimal.{digits, to_string}
use native.Mathlib.Numerals.{unary_clauses}
use mathlib.Core.List.{append_assoc, append-nil}
use bpftrace.Util.Strtoull.{uint64_max}
use bpftrace.Util.IntParser.{to_uint, ok, remove_underscores}

decimal-append : (acc : ℕ) (s t : Bytes) → decimal acc (s ++ t) ≡ decimal (decimal acc s) t
decimal-append acc [] t = refl
decimal-append acc (c ∷ s) t = decimal-append (acc * 10 + (c - 48)) s t

Digits-append : (s t : Bytes) → Digits s → Digits t → Digits (s ++ t)
Digits-append [] t d e = e
Digits-append (c ∷ s) t d e = (d.0, Digits-append s t d.1 e)

tenth_below : (v n : ℕ) → v < 10 ^ suc n → v / 10 < 10 ^ n
tenth_below v n h = let w = simp unary_clauses at h in omega (arith, w)

-- What the digits of a positive number are: the first is no zero.
pub record Shown (v : ℕ) (behind t : Bytes) : Type 0 where
  pub first : ℕ
  pub rest : Bytes
  pub low : b'1' ≤ first
  pub high : first ≤ b'9'
  pub all_digits : Digits rest
  pub number : decimal (first - 48) rest ≡ v
  pub text_of : t ≡ first ∷ (rest ++ behind)

pub digits-Shown :
    (n v : ℕ) (behind : Bytes) → 0 < v → v < 10 ^ n → Shown v behind (digits n v behind)
unfolding digits
digits-Shown zero v behind p b = absurd (omega arith)
digits-Shown (suc n) v behind p b = elim (Bool-cases (ltb v 10)) [
  | inl t ↦ rw t (record {
    first = b'0' + v;
    rest = [];
    low = omega arith;
    high = ground (arith, t);
    all_digits = tt;
    number = omega arith;
    text_of = refl;
  })
  | inr f ↦
      let d = b'0' + v % 10 in
      let more = digits-Shown n (v / 10) (d ∷ behind) (ground (arith, f)) (tenth_below v n b) in
      rw f (record {
        first = more.first;
        rest = more.rest ++ (d ∷ []);
        low = more.low;
        high = more.high;
        all_digits =
            Digits-append more.rest (d ∷ []) more.all_digits ((omega arith, omega arith), tt);
        number = decimal-append (more.first - 48) more.rest (d ∷ []) ∙ rw more.number (omega arith);
        text_of =
            more.text_of ∙ ap (λ u. more.first ∷ u) (sym (append_assoc more.rest (d ∷ []) behind));
      })
]

digit_low : {c : ℕ} → b'1' ≤ c → b'0' ≤ c
digit_low h = omega (arith, h)

Nat-cases : (v : ℕ) → (v ≡ 0) ⊎ (0 < v)
Nat-cases zero = inl refl
Nat-cases (suc v) = inr (omega arith)

Shown-number : (v : ℕ) (t : Bytes) → v ≤ uint64_max → Shown v [] t → to_uint t 0 ≡ ok v
Shown-number v t b s =
    let text : t ≡ s.first ∷ s.rest = s.text_of ∙ ap (λ u. s.first ∷ u) (append-nil s.rest) in
    let read : remove_underscores t ≡ s.first ∷ s.rest =
      ap remove_underscores text
      ∙ remove_underscores-Digits (s.first ∷ s.rest) ((digit_low s.low, s.high), s.all_digits) in
    to_uint-decimal t s.first s.rest read s.low s.high s.all_digits
    ∙ (ap (or_overflow t) s.number ∙ or_overflow-fits t v b)

-- A 64-bit number that is printed in decimal is read as itself.
pub to_uint-to_string : (v : ℕ) → v ≤ uint64_max → to_uint (to_string v) 0 ≡ ok v
unfolding to_string
to_uint-to_string v b = elim (Nat-cases v) [
  | inl z ↦ rw z to_uint_zero
  | inr p ↦ Shown-number v (to_string v) b (digits-Shown 20 v [] p (omega (arith, b)))
]

Shown-Digits : (v : ℕ) (t : Bytes) → Shown v [] t → Digits t × (text_eq t [] ≡ false)
Shown-Digits v t s =
    rw (s.text_of ∙ ap (λ u. s.first ∷ u) (append-nil s.rest))
      (((digit_low s.low, s.high), s.all_digits), refl)

-- A printed number is a text of digits, and not empty.
pub to_string-Digits :
    (v : ℕ) → v ≤ uint64_max → Digits (to_string v) × (text_eq (to_string v) [] ≡ false)
unfolding to_string digits
to_string-Digits v b = elim (Nat-cases v) [
  | inl z ↦ rw z (((omega arith, omega arith), tt), refl)
  | inr p ↦ Shown-Digits v (to_string v) (digits-Shown 20 v [] p (omega (arith, b)))
]
