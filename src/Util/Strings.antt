-- ===== src/Util/Strings.antt =====
-- src/util/strings.cpp: helpers on text.
pub mod Split
pub mod Format
mod Tests
use bpftrace.Prelude.{
  ℕ, ◌+◌, ◌-◌, ◌/◌, ◌%◌, ap, Bool, true, false, not, ◌&&◌, ◌||◌, Option, none, some, List, [], ◌∷◌,
  ◌++◌, map, ltb, leb, ◌==◌, if◌then◌else◌, Bytes, codes, text_eq,
}
use bpftrace.Prelude.Int.{
  ℤ, pos, negsuc, pos_part, neg_part, sub_ℕ, ◌+ℤ◌, ◌-ℤ◌, ◌*ℤ◌, ◌≤ℤ◌, ltb_ℤ, +ℤ_parts, -ℤ_parts,
  eq_of_parts, int_laws,
}
use mathlib.Core.List.{reverse}

-- `split_string`: a loop of `getline`. `value` is what the current call has read; a call that meets
-- the end with nothing read fails, so a delimiter at the end adds no empty element.
unfoldable pub split_loop : ℕ → Bool → Bytes → Bytes → List Bytes
split_loop delimiter remove_empty value [] = if text_eq value [] then [] else value ∷ []
split_loop delimiter remove_empty value (c ∷ s) =
    let next_value = split_loop delimiter remove_empty [] s in
    let longer = split_loop delimiter remove_empty (value ++ c ∷ []) s in
    if c == delimiter
    then if remove_empty && text_eq value [] then next_value else value ∷ next_value
    else longer

unfoldable pub split_string : Bytes → ℕ → Bool → List Bytes
split_string str delimiter remove_empty = split_loop delimiter remove_empty [] str

-- `str.find(':')` and `substr`: the text before the first colon, and the text after it.
unfoldable pub erase_prefix : Bytes → Bytes × Bytes
erase_prefix [] = ([], [])
erase_prefix (c ∷ str) =
    let (prefix, rest) = erase_prefix str in if c == b':' then ([], str) else (c ∷ prefix, rest)

-- `str_join`: the loop, with its flag for the first element.
unfoldable pub join_loop : Bytes → Bool → Bytes → List Bytes → Bytes
join_loop delim first str [] = str
join_loop delim first str (elem ∷ list) =
    join_loop delim false ((if first then str else str ++ delim) ++ elem) list

unfoldable pub str_join : List Bytes → Bytes → Bytes
str_join list delim = join_loop delim true [] list

-- One digit of `%02x`.
unfoldable pub hex_digit : ℕ → ℕ
hex_digit d = if ltb d 10 then d + 48 else d + 87

abbrev pub hex_byte : ℕ → Bytes
hex_byte b = hex_digit (b / 16) ∷ hex_digit (b % 16) ∷ []

-- What one round of `hex_format_buffer` prints; `is_last` is `i == size - 1`.
unfoldable pub format_byte : Bool → Bool → Bool → ℕ → Bytes
format_byte keep_ascii escape_hex is_last b =
    if keep_ascii && (leb 32 b && leb b 126)
    then b ∷ []
    else if escape_hex
    then b'\\' ∷ b'x' ∷ hex_byte b
    else if is_last
    then hex_byte b
    else hex_byte b ++ 32 ∷ []

abbrev pub is_last_byte : Bytes → Bool
is_last_byte [] = true
is_last_byte (c ∷ buf) = false

unfoldable pub hex_format_buffer : Bool → Bool → Bytes → Bytes
unfolding format_byte
hex_format_buffer keep_ascii escape_hex [] = []
hex_format_buffer keep_ascii escape_hex (b ∷ buf) =
    format_byte keep_ascii escape_hex (is_last_byte buf) b
    ++ hex_format_buffer keep_ascii escape_hex buf

-- `std::tolower` in the C locale.
unfoldable pub lower_byte : ℕ → ℕ
lower_byte c = if leb b'A' c && leb c b'Z' then c + 32 else c

unfoldable pub to_lower : Bytes → Bytes
unfolding lower_byte
to_lower original = map lower_byte original

unfoldable pub is_str_bool_truthy : Bytes → Bool
is_str_bool_truthy value =
    let val = to_lower value in
    text_eq val (codes "1")
    || (text_eq val (codes "true") || (text_eq val (codes "on") || text_eq val (codes "yes")))

unfoldable pub is_str_bool_falsy : Bytes → Bool
is_str_bool_falsy value =
    let val = to_lower value in
    text_eq val (codes "0")
    || (text_eq val (codes "false") || (text_eq val (codes "off") || text_eq val (codes "no")))

-- `erase_parameter_list`: the loop from the last `)` down to the `(` that matches it. The text is
-- given from its last byte on, and `open` is the count `stack`.
unfoldable pub find_start : ℤ → Bytes → Option Bytes
unfolding ◌+ℤ◌ ◌-ℤ◌
find_start stack [] = none
find_start stack (c ∷ before) =
    let stack' =
      if c == b')' then stack +ℤ pos 1 else if c == b'(' then stack -ℤ pos 1 else stack in
    let rest = find_start stack' before in
    if not (ltb_ℤ stack' (pos 0) || ltb_ℤ (pos 0) stack') then some before else rest

-- The text up to the last `)`, backwards; `npos` skips the loop.
unfoldable pub from_last_paren : Bytes → Option Bytes
from_last_paren [] = none
from_last_paren (c ∷ before) =
    let rest = from_last_paren before in if c == b')' then some (c ∷ before) else rest

unfoldable pub erase_parameter_list : Bytes → Bytes
unfolding find_start from_last_paren
erase_parameter_list name = elim (from_last_paren (reverse name)) [
  | none ↦ name
  | some text ↦ elim (find_start (pos 0) text) [ none ↦ name | some before ↦ reverse before ]
]
