-- ===== src/FormatString.antt =====
-- src/format_string.h and src/format_string.cpp: format strings, their specifiers and fragments, the
-- check of arguments against them, and the output.
pub mod Apply
pub mod Format
pub mod Check
mod Accepted
mod Counts
pub mod Written
mod Matched
mod Escaped
mod Printed
mod Refused
mod Width
mod Steps
mod Tests
use mathlib.Core.Option
use bpftrace.Prelude.Int.{
  ℤ, pos, negsuc, pos_part, neg_part, sub_ℕ, ◌+ℤ◌, ◌-ℤ◌, ◌*ℤ◌, ◌≤ℤ◌, ltb_ℤ, +ℤ_parts, -ℤ_parts,
  eq_of_parts, int_laws,
}
use bpftrace.Util.IntParser.Digits.{decimal}
use bpftrace.Types.{SizedType, Kind, integer, sized, pointer}
use bpftrace.Prelude.{
  ℕ, zero, suc, ◌+◌, ◌-◌, ◌*◌, ◌/◌, ◌%◌, ◌^◌, min, ap, Bool, true, false, not, ◌&&◌, ◌||◌, Option,
  none, some, List, [], ◌∷◌, ◌++◌, map, ltb, leb, ◌==◌, if◌then◌else◌, length, set, take, drop,
  Bytes, codes, text_eq, starts_with,
}

-- A specifier such as `%-5d`.
pub record FormatSpec : Type 0 where
  pub left_align : Bool
  pub show_sign : Bool
  pub space_prefix : Bool
  pub alternate_form : Bool
  pub lead_zeros : Bool
  pub width : ℕ
  pub precision : ℤ
  pub length_modifier : Bytes
  pub specifier : Bytes

-- The groups of a match of `FormatSpec::regex`, and what stands behind the match.
pub record Groups : Type 0 where
  pub minus : Bool
  pub plus : Bool
  pub space : Bool
  pub sharp : Bool
  pub zero_flag : Bool
  pub width_text : Bytes
  pub precision_text : Bytes
  pub length_text : Bytes
  pub specifier_text : Bytes
  pub behind : Bytes

-- A flag, such as `(-?)`.
unfoldable pub flag : ℕ → Bytes → Bool × Bytes
flag c [] = (false, [])
flag c (a ∷ s) = if a == c then (true, s) else (false, a ∷ s)

-- The longest prefix of bytes that pass a test, and the rest.
abbrev pub span : (ℕ → Bool) → Bytes → Bytes × Bytes
span p [] = ([], [])
span p (c ∷ s) = let (more, rest) = span p s in if p c then (c ∷ more, rest) else ([], c ∷ s)

abbrev pub is_digit : ℕ → Bool
is_digit c = leb b'0' c && leb c b'9'

-- `(\*|\d+)?`.
unfoldable pub number_group : Bytes → Bytes × Bytes
number_group [] = ([], [])
number_group (c ∷ s) = if c == b'*' then (c ∷ [], s) else span is_digit (c ∷ s)

-- `(?:\.(\*|\d+))?`: a point with no number behind it is not taken.
unfoldable pub precision_group : Bytes → Bytes × Bytes
unfolding number_group
precision_group [] = ([], [])
precision_group (c ∷ s) =
    let (digits, rest) = number_group s in
    if c == b'.' && not (text_eq digits []) then (digits, rest) else ([], c ∷ s)

abbrev pub mem_byte : ℕ → Bytes → Bool
mem_byte c [] = false
mem_byte c (a ∷ s) = c == a || mem_byte c s

-- `[hlLjzt]*`.
unfoldable pub length_group : Bytes → Bytes × Bytes
length_group s = span (λ c. mem_byte c (codes "hlLjzt")) s

-- `[diouxXeEfFgGaAcspn%]|rh|rx|r`.
unfoldable pub specifier_group : Bytes → Option (Bytes × Bytes)
specifier_group [] = none
specifier_group (c ∷ s) =
    if mem_byte c (codes "diouxXeEfFgGaAcspn%")
    then some (c ∷ [], s)
    else if c == b'r'
    then (if starts_with s (codes "h")
        then some (codes "rh", drop 1 s)
        else if starts_with s (codes "x")
        then some (codes "rx", drop 1 s)
        else some (codes "r", s))
    else none

-- The match of the regular expression at the start of a text. No group can match the byte that
-- stops the group before it, so a shorter match of a group never helps.
unfoldable pub match_at : Bytes → Option Groups
match_at [] = none
match_at (c ∷ s) =
    let (minus, s1) = flag b'-' s in
    let (plus, s2) = flag b'+' s1 in
    let (space, s3) = flag b' ' s2 in
    let (sharp, s4) = flag b'#' s3 in
    let (zero_flag, s5) = flag b'0' s4 in
    let (width_text, s6) = number_group s5 in
    let (precision_text, s7) = precision_group s6 in
    let (length_text, s8) = length_group s7 in
    if c == b'%'
    then elim (specifier_group s8) [
      | none ↦ none
      | some (specifier_text, behind) ↦ some (record {
        minus = minus;
        plus = plus;
        space = space;
        sharp = sharp;
        zero_flag = zero_flag;
        width_text = width_text;
        precision_text = precision_text;
        length_text = length_text;
        specifier_text = specifier_text;
        behind = behind;
      })
    ]
    else none

-- `std::stoi` of digits: `none` is the exception `std::out_of_range`.
unfoldable pub stoi : Bytes → Option ℕ
stoi s = if ltb (decimal 0 s) (2 ^ 31) then some (decimal 0 s) else none

-- A number that is neither missing nor a star.
abbrev pub read_number : Bytes → ℤ → Option ℤ
read_number s preset =
    if text_eq s [] || text_eq s (codes "*") then some preset else Option.map pos (stoi s)

-- The constructor of `FormatSpec`; `none` is an exception.
unfoldable pub format_spec : Groups → Option FormatSpec
format_spec m = elim (read_number m.width_text (pos 0)) [
  | none ↦ none
  | some width ↦ elim (read_number m.precision_text (negsuc 0)) [
    | none ↦ none
    | some precision ↦ some (record {
      left_align = m.minus;
      show_sign = m.plus;
      space_prefix = m.space;
      alternate_form = m.sharp;
      lead_zeros = m.zero_flag;
      width = pos_part width;
      precision = precision;
      length_modifier = m.length_text;
      specifier = m.specifier_text;
    })
  ]
]

-- `fragments` and `specs`.
pub record FormatString : Type 0 where
  pub fragments : List Bytes
  pub specs : List FormatSpec

abbrev pub add_spec : Bytes → FormatSpec → FormatString → FormatString
add_spec fragment spec fmt = record {
  fragments = fragment ∷ fmt.fragments;
  specs = spec ∷ fmt.specs;
}

-- The loop of `FormatString::parse`: `skip` counts what is left of the last match, `fragment` is
-- `last_fragment`.
unfoldable pub parse_loop : ℕ → Bytes → Bytes → Option FormatString
parse_loop skip fragment [] = some (record { fragments = fragment ∷ []; specs = [] })
parse_loop (suc skip) fragment (c ∷ s) = parse_loop skip fragment s
parse_loop zero fragment (c ∷ s) = elim (match_at (c ∷ s)) [
  | none ↦ parse_loop 0 (fragment ++ c ∷ []) s
  | some m ↦ elim (format_spec m) [
    | none ↦ none
    | some spec ↦
        let skip = length s - length m.behind in
        let percent = parse_loop skip (fragment ++ b'%' ∷ []) s in
        let next = parse_loop skip [] s in
        if text_eq spec.specifier (codes "%")
        then percent
        else Option.map (add_spec fragment spec) next
  ]
]

unfoldable pub parse : Bytes → Option FormatString
unfolding parse_loop
parse fmt = parse_loop 0 [] fmt
