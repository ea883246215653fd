-- ===== src/FormatString/Written.antt =====
-- The text of a specifier, and what the regular expression makes of it.
use bpftrace.FormatString.{FormatSpec, span, is_digit, length_group, specifier_group, mem_byte}
use bpftrace.Util.Decimal.{to_string}
use bpftrace.Util.IntParser.Digits.{Digits}
use bpftrace.Prelude.{
  ℕ, zero, suc, ◌^◌, ◌≤◌, ◌<◌, ◌≡◌, refl, Bool, true, false, ◌||◌, some, [], ◌∷◌, ◌++◌, arith, ◌==◌,
  if◌then◌else◌, Bytes, codes, starts_with,
}
use bpftrace.Prelude.Int.{ℤ, pos, negsuc}

abbrev pub flag_text : ℕ → Bool → Bytes
flag_text c b = if b then c ∷ [] else []

-- A width of 0 is not written.
abbrev pub width_of : ℕ → Bytes
width_of zero = []
width_of (suc n) = to_string (suc n)

-- A precision below 0 is not written.
abbrev pub precision_of : ℤ → Bytes
precision_of (pos n) = b'.' ∷ to_string n
precision_of (negsuc n) = []

-- The text behind the percent sign.
abbrev pub show_spec : FormatSpec → Bytes → Bytes
show_spec spec behind =
    flag_text b'-' spec.left_align
    ++ (flag_text b'+' spec.show_sign
        ++ (flag_text b' ' spec.space_prefix
            ++ (flag_text b'#' spec.alternate_form
                ++ (flag_text b'0' spec.lead_zeros
                    ++ (width_of spec.width
                        ++ (precision_of spec.precision
                            ++ (spec.length_modifier ++ (spec.specifier ++ behind))))))))

-- The specifiers that are printed as arguments, before some text.
pub data IsSpecifier : Bytes → Bytes → Type 0 where
  one :
      (c : ℕ) (behind : Bytes)
      → mem_byte c (codes "diouxXeEfFgGaAcspn") ≡ true
      → IsSpecifier (c ∷ []) behind
  plain_hex : (behind : Bytes) → IsSpecifier (codes "rh") behind
  escaped_hex : (behind : Bytes) → IsSpecifier (codes "rx") behind
  buffer :
      (behind : Bytes)
      → starts_with behind (codes "h") ≡ false
      → starts_with behind (codes "x") ≡ false
      → IsSpecifier (codes "r") behind

abbrev pub IsLength : Bytes → Type 0
IsLength [] = Unit {0}
IsLength (c ∷ s) = (mem_byte c (codes "hlLjzt") ≡ true) × IsLength s

abbrev pub IsPrecision : ℤ → Type 0
IsPrecision (pos n) = n < 2 ^ 31
IsPrecision (negsuc n) = n ≡ 0

-- The place in the text of a specifier where a byte can stand.
unfoldable pub rank : ℕ → ℕ
rank c =
    if c == b'-'
    then 0
    else if c == b'+'
    then 1
    else if c == b' '
    then 2
    else if c == b'#'
    then 3
    else if c == b'0'
    then 4
    else if is_digit c || c == b'*'
    then 5
    else if c == b'.'
    then 6
    else if mem_byte c (codes "hlLjzt")
    then 7
    else 8

-- A text that begins with a byte of some place or a later one.
abbrev pub From : ℕ → Bytes → Type 0
From k [] = Unit {0}
From k (c ∷ s) = k ≤ rank c

pub From-le : {j k : ℕ} → j ≤ k → (s : Bytes) → From k s → From j s
From-le h [] f = tt
From-le h (c ∷ s) f = omega (arith, f)

pub specifier_group-IsSpecifier :
    {s behind : Bytes}
    → IsSpecifier s behind
    → (specifier_group (s ++ behind) ≡ some (s, behind)) × From 8 (s ++ behind)
unfolding specifier_group rank
specifier_group-IsSpecifier (one c behind m) = (ground (arith, m), ground (arith, m))
specifier_group-IsSpecifier (plain_hex behind) = (refl, omega arith)
specifier_group-IsSpecifier (escaped_hex behind) = (refl, omega arith)
specifier_group-IsSpecifier (buffer behind h x) = (rw (h, x) refl, omega arith)

pub length_group-IsLength :
    (s behind : Bytes)
    → IsLength s
    → From 8 behind
    → (length_group (s ++ behind) ≡ (s, behind)) × From 7 (s ++ behind)
unfolding length_group rank
length_group-IsLength [] [] l f = (refl, tt)
length_group-IsLength [] (c ∷ behind) l f = (ground (arith, f), omega (arith, f))
length_group-IsLength (c ∷ s) behind l f =
    let ih = length_group-IsLength s behind l.1 f in
    (ground (arith, ih.0, l.0), ground (arith, l.0))

pub span-Digits :
    (s behind : Bytes) → Digits s → From 6 behind → span is_digit (s ++ behind) ≡ (s, behind)
unfolding rank
span-Digits [] [] d f = refl
span-Digits [] (c ∷ behind) d f = ground (arith, f)
span-Digits (c ∷ s) behind d f = ground (arith, span-Digits s behind d.1 f, d.0)
