-- ===== src/Util/Strtoull.antt =====
-- The C library's `strtoull`, as far as util/int_parser.cpp uses it: leading blanks, a sign, the
-- prefixes of bases 0 and 16, then digits up to the first byte that is none.
use bpftrace.Prelude.{
  ℕ, ◌+◌, ◌-◌, ◌*◌, ◌^◌, ◌%◌, Bool, true, false, ◌&&◌, ◌||◌, Option, none, some, [], ◌∷◌, Bytes,
  ltb, leb, ◌==◌, if◌then◌else◌,
}

abbrev pub uint64_max : ℕ
uint64_max = 0xffff_ffff_ffff_ffff

-- `isspace` in the C locale.
unfoldable pub is_space : ℕ → Bool
is_space c = c == 32 || leb 9 c && leb c 13

-- The value of a digit, in any base.
unfoldable pub digit_value : ℕ → Option ℕ
digit_value c =
    if leb b'0' c && leb c b'9'
    then some (c - 48)
    else if leb b'a' c && leb c b'z'
    then some (c - 87)
    else if leb b'A' c && leb c b'Z'
    then some (c - 55)
    else none

-- The same, where the digit is below the base.
unfoldable pub digit_below : ℕ → ℕ → Option ℕ
unfolding digit_value
digit_below base c = elim (digit_value c) [
  | none ↦ none
  | some d ↦ if ltb d base then some d else none
]

unfoldable pub skip_spaces : Bytes → Bytes
unfolding is_space
skip_spaces [] = []
skip_spaces (c ∷ s) = if is_space c then skip_spaces s else c ∷ s

-- What a call yields: the value, clamped to the greatest where `overflowed` (`errno == ERANGE`),
-- the text at `endptr`, and whether any digit was read (`endptr` is the start otherwise).
pub record Scan : Type 0 where
  pub value : ℕ
  pub overflowed : Bool
  pub rest : Bytes
  pub any : Bool

-- The exact value of the digits from `acc` on, what follows them, and whether there was one.
unfoldable pub scan_digits : ℕ → ℕ → Bool → Bytes → ℕ × Bytes × Bool
unfolding digit_below
scan_digits base acc any [] = (acc, [], any)
scan_digits base acc any (c ∷ s) = elim (digit_below base c) [
  | none ↦ (acc, c ∷ s, any)
  | some d ↦ scan_digits base (acc * base + d) true s
]

-- The base to read in, and the text after the prefix that announces it.
unfoldable pub detect_base : ℕ → Bytes → ℕ × Bytes
unfolding digit_below
detect_base base (z ∷ x ∷ c ∷ s) =
    if (base == 0 || base == 16) && (z == b'0' && (x == b'x' || x == b'X'))
    then elim (digit_below 16 c) [
      | none ↦ (if base == 0 then 8 else base, z ∷ x ∷ c ∷ s)
      | some _ ↦ (16, c ∷ s)
    ]
    else (if base == 0 then if z == b'0' then 8 else 10 else base, z ∷ x ∷ c ∷ s)
detect_base base (z ∷ s) = (if base == 0 then if z == b'0' then 8 else 10 else base, z ∷ s)
detect_base base [] = (if base == 0 then 10 else base, [])

-- The sign, and the text behind it.
unfoldable pub split_sign : Bytes → Bool × Bytes
split_sign [] = (false, [])
split_sign (c ∷ s) =
    if c == b'-' then (true, s) else if c == b'+' then (false, s) else (false, c ∷ s)

-- A value too large is clamped; a sign negates in 64 bits.
unfoldable pub finish : Bool → ℕ → Bytes → Bool → Bytes → Scan
finish negative v rest any start =
    if any
    then if ltb uint64_max v
      then record { value = uint64_max; overflowed = true; rest = rest; any = true }
      else record {
        value = if negative then (2 ^ 64 - v) % 2 ^ 64 else v;
        overflowed = false;
        rest = rest;
        any = true;
      }
    else record { value = 0; overflowed = false; rest = start; any = false }

unfoldable pub strtoull : Bytes → ℕ → Scan
strtoull s base =
    let (negative, unsigned_text) = split_sign (skip_spaces s) in
    let (b, text) = detect_base base unsigned_text in
    let (v, rest, any) = scan_digits b 0 false text in finish negative v rest any s
