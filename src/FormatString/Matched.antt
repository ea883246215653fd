-- ===== src/FormatString/Matched.antt =====
-- The regular expression reads the text of a specifier as that specifier.
use bpftrace.FormatString.{
  flag, number_group, precision_group, read_number, stoi, FormatSpec, Groups, match_at, format_spec,
}
use bpftrace.FormatString.Written.{
  flag_text, width_of, precision_of, IsPrecision, rank, From, From-le, span-Digits, IsLength,
  IsSpecifier, show_spec, specifier_group-IsSpecifier, length_group-IsLength,
}
use bpftrace.Util.Decimal.{to_string, digits}
use bpftrace.Util.Decimal.Read.{digits-Shown}
use bpftrace.Util.IntParser.Digits.{Digits, decimal}
use bpftrace.Prelude.{
  ℕ, zero, suc, ◌+◌, ◌-◌, ◌*◌, ◌^◌, ◌≤◌, ◌<◌, ◌≡◌, refl, ap, ◌∙◌, false, some, [], ◌∷◌, ◌++◌, arith,
  ◌==◌, if◌then◌else◌, Bytes, text_eq, inl, inr, Bool, true, ltb, lt→ltb, ==_iff, Bool-cases, sym,
  none,
}
use bpftrace.Prelude.Int.{ℤ, pos, negsuc}
use mathlib.Core.List.{append-nil}
use mathlib.Core.Path.{subst}

-- The digits of a number that fits an `int`.
record Numeral (v : ℕ) (t : Bytes) : Type 0 where
  first : ℕ
  rest : Bytes
  low : b'0' ≤ first
  high : first ≤ b'9'
  leading : 0 < v → b'1' ≤ first
  all_digits : Digits rest
  number : decimal (first - 48) rest ≡ v
  text_of : t ≡ first ∷ rest

to_string-Numeral : (v : ℕ) → v < 2 ^ 31 → Numeral v (to_string v)
unfolding to_string digits
to_string-Numeral zero h = record {
  first = b'0';
  rest = [];
  low = omega arith;
  high = omega arith;
  leading = λ p. absurd (omega (arith, p));
  all_digits = tt;
  number = refl;
  text_of = refl;
}
to_string-Numeral (suc n) h =
    let s = digits-Shown 20 (suc n) [] (omega arith) (omega (arith, h)) in
    record {
      first = s.first;
      rest = s.rest;
      low = omega (arith, s.low);
      high = s.high;
      leading = λ p. s.low;
      all_digits = s.all_digits;
      number = s.number;
      text_of = s.text_of ∙ ap (λ u. s.first ∷ u) (append-nil s.rest);
    }

module _ {v : ℕ} {t : Bytes} (n : Numeral v t) (behind : Bytes) (f : From 6 behind) where
  number_group-Numeral : number_group (t ++ behind) ≡ (t, behind)
  unfolding number_group
  number_group-Numeral =
      let d : Digits (n.first ∷ n.rest) = ((n.low, n.high), n.all_digits) in
      let s = span-Digits (n.first ∷ n.rest) behind d f in
      let star : (n.first == b'*') ≡ false = ground (arith, n.low) in rw n.text_of (rw star s)

  Numeral-From : 0 < v → From 5 (t ++ behind)
  unfolding rank
  Numeral-From p = let l = n.leading p in let h = n.high in rw n.text_of (ground (arith, l, h))

  Numeral-not_empty : text_eq t [] ≡ false
  Numeral-not_empty = rw n.text_of refl

stoi-Digits :
    (c : ℕ) (rest : Bytes) {v : ℕ}
    → decimal (c - 48) rest ≡ v
    → v < 2 ^ 31
    → stoi (c ∷ rest) ≡ some v
unfolding stoi
stoi-Digits c rest {v} n h =
    let first : 0 * 10 + (c - 48) ≡ c - 48 = omega arith in
    let e : decimal 0 (c ∷ rest) ≡ v = ap (λ a. decimal a rest) first ∙ n in
    subst (λ d. (if ltb d (2 ^ 31) then some d else none) ≡ some v) (sym e) (rw (lt→ltb _ _ h) refl)

read_number-Numeral :
    {v : ℕ} {t : Bytes} (preset : ℤ)
    → v < 2 ^ 31
    → Numeral v t
    → read_number t preset ≡ some (pos v)
read_number-Numeral preset h n =
    let star : (n.first == b'*') ≡ false = ground (arith, n.low) in
    rw n.text_of (rw star (rw (stoi-Digits n.first n.rest n.number h) refl))

number_group-From : (s : Bytes) → From 6 s → number_group s ≡ ([], s)
unfolding number_group rank
number_group-From [] f = refl
number_group-From (c ∷ s) f = ground (arith, f)

width_group :
    (w : ℕ) (behind : Bytes)
    → w < 2 ^ 31
    → From 6 behind
    → (number_group (width_of w ++ behind) ≡ (width_of w, behind))
      × From 5 (width_of w ++ behind)
      × (read_number (width_of w) (pos 0) ≡ some (pos w))
width_group zero behind h f = (number_group-From behind f, From-le (omega arith) behind f, refl)
width_group (suc w) behind h f =
    let n = to_string-Numeral (suc w) h in
    (
      number_group-Numeral n behind f,
      Numeral-From n behind f (omega arith),
      read_number-Numeral (pos 0) h n,
    )

abbrev pub digits_of : ℤ → Bytes
digits_of (pos n) = to_string n
digits_of (negsuc n) = []

precision_group-From : (s : Bytes) → From 7 s → precision_group s ≡ ([], s)
unfolding precision_group rank
precision_group-From [] f = refl
precision_group-From (c ∷ s) f = ground (arith, f)

precision_group-IsPrecision :
    (p : ℤ) (behind : Bytes)
    → IsPrecision p
    → From 7 behind
    → (precision_group (precision_of p ++ behind) ≡ (digits_of p, behind))
      × From 6 (precision_of p ++ behind)
      × (read_number (digits_of p) (negsuc 0) ≡ some p)
unfolding precision_group rank
precision_group-IsPrecision (negsuc n) behind h f =
    (precision_group-From behind f, From-le (omega arith) behind f, rw h refl)
precision_group-IsPrecision (pos v) behind h f =
    let n = to_string-Numeral v h in
    let g = number_group-Numeral n behind (From-le (omega arith) behind f) in
    (
      rw g (rw (Numeral-not_empty n behind (From-le (omega arith) behind f)) refl),
      omega arith,
      read_number-Numeral (negsuc 0) h n,
    )

-- A flag is read where it is written, and its place is kept.
flag-flag_text :
    (c k : ℕ) (b : Bool) (s : Bytes)
    → rank c ≡ k
    → From (suc k) s
    → (flag c (flag_text c b ++ s) ≡ (b, s)) × From k (flag_text c b ++ s)
unfolding flag
flag-flag_text c k true s r f = (ground arith, omega (arith, r))
flag-flag_text c k false [] r f = (refl, tt)
flag-flag_text c k false (a ∷ s) r f = (
  elim (Bool-cases (a == c)) [
    | inl t ↦ let e = (==_iff a c).0 t in absurd (let g = rw e at f in omega (arith, g, r))
    | inr t ↦ rw t refl
  ],
  omega (arith, f),
)

-- What the places of a specifier hold.
pub record IsWritten (spec : FormatSpec) (behind : Bytes) : Type 0 where
  pub width_fits : spec.width < 2 ^ 31
  pub precision_fits : IsPrecision spec.precision
  pub length_fits : IsLength spec.length_modifier
  pub specifier_fits : IsSpecifier spec.specifier behind

-- The groups of the match.
abbrev pub groups_of : FormatSpec → Bytes → Groups
groups_of spec behind = record {
  minus = spec.left_align;
  plus = spec.show_sign;
  space = spec.space_prefix;
  sharp = spec.alternate_form;
  zero_flag = spec.lead_zeros;
  width_text = width_of spec.width;
  precision_text = digits_of spec.precision;
  length_text = spec.length_modifier;
  specifier_text = spec.specifier;
  behind = behind;
}

ranks : (rank b'-' ≡ 0) × (rank b'+' ≡ 1) × (rank b' ' ≡ 2) × (rank b'#' ≡ 3) × (rank b'0' ≡ 4)
unfolding rank
ranks = (refl, refl, refl, refl, refl)

module _ (spec : FormatSpec) (behind : Bytes) (w : IsWritten spec behind) where
  pub match_at-show_spec :
      (match_at (b'%' ∷ show_spec spec behind) ≡ some (groups_of spec behind))
      × (format_spec (groups_of spec behind) ≡ some spec)
  unfolding match_at format_spec
  match_at-show_spec =
      let s9 = specifier_group-IsSpecifier w.specifier_fits in
      let s8 = length_group-IsLength spec.length_modifier _ w.length_fits s9.1 in
      let s7 = precision_group-IsPrecision spec.precision _ w.precision_fits s8.1 in
      let s6 = width_group spec.width _ w.width_fits s7.1 in
      let s5 = flag-flag_text b'0' 4 spec.lead_zeros _ ranks.4 s6.1 in
      let s4 = flag-flag_text b'#' 3 spec.alternate_form _ ranks.3 s5.1 in
      let s3 = flag-flag_text b' ' 2 spec.space_prefix _ ranks.2 s4.1 in
      let s2 = flag-flag_text b'+' 1 spec.show_sign _ ranks.1 s3.1 in
      let s1 = flag-flag_text b'-' 0 spec.left_align _ ranks.0 s2.1 in
      (
        rw (s1.0, s2.0, s3.0, s4.0, s5.0, s6.0, s7.0, s8.0, s9.0)
            (rw (s1.0, s2.0, s3.0, s4.0, s5.0, s6.0, s7.0, s8.0) refl),
        rw (s6.2, format_spec) (rw s7.2 refl),
      )
