-- ===== src/Output/Quoted.antt =====
-- Strings in JSON: what is printed is read back, and what it does to the stream.
mod Written
pub mod Read
use bpftrace.Output.Stream.{Stream, Base, put, unsigned_text, based, digit}
use bpftrace.Output.Json.{put_code, char_code, emit_char, put_char, emit_chars, emit_string}
use bpftrace.Prelude.{
  ℕ, zero, suc, ◌+◌, ◌-◌, ◌*◌, ◌/◌, ◌%◌, ◌<◌, ◌≡◌, refl, ap, Bool, true, false, not, ◌&&◌, ◌||◌,
  Option, none, some, [], ◌∷◌, ◌++◌, arith, ltb, ◌==◌, if◌then◌else◌, length, Bytes, ◌∙◌, inl, inr,
  Bool-cases, replicate, leb, ltb→lt, sym, ==_iff, map,
}
use mathlib.Core.List.{append_assoc, append-nil}
use mathlib.Core.Option

-- A stream whose manipulators are as they were made, but for the base and the fill.
pub record IsPlain (out : Stream) : Type 0 where
  pub no_width : out.width ≡ 0
  pub right : out.left ≡ false
  pub lower_case : out.uppercase ≡ false
  pub no_base : out.showbase ≡ false

-- Where a reader of a JSON string stands: in plain text, behind a backslash, or before some digits
-- of a code.
pub data Reader : Type 0 where
  plain : Reader
  escaped : Reader
  code : ℕ → ℕ → Reader

-- The value of a hexadecimal digit.
abbrev pub digit_value : ℕ → ℕ
digit_value c = if ltb c 58 then c - 48 else c - 87

-- The character that an escape of one letter stands for.
abbrev pub named_char : ℕ → ℕ
named_char c = if c == b'n' then 10 else if c == b'r' then 13 else if c == b't' then 9 else c

abbrev pub cons_char : ℕ → Bytes × Bytes → Bytes × Bytes
cons_char c (s, rest) = (c ∷ s, rest)

-- The characters up to the closing quote, and what stands behind it.
unfoldable pub read_string : Reader → Bytes → Option (Bytes × Bytes)
read_string state [] = none
read_string plain (c ∷ s) =
    let behind = read_string escaped s in
    let more = read_string plain s in
    if c == b'"' then some ([], s) else if c == b'\\' then behind else Option.map (cons_char c) more
read_string escaped (c ∷ s) =
    let digits = read_string (code 3 0) s in
    let more = read_string plain s in
    if c == b'u' then digits else Option.map (cons_char (named_char c)) more
read_string (code zero v) (c ∷ s) =
    Option.map (cons_char (v * 16 + digit_value c)) (read_string plain s)
read_string (code (suc n) v) (c ∷ s) = read_string (code n (v * 16 + digit_value c)) s

-- A character that is printed by its code.
abbrev pub is_coded : ℕ → Bool
is_coded c = not (c == 10 || (c == 13 || c == 9)) && ltb c 32

-- The digits of the code of a control character, filled up to four.
abbrev pub four_digits : ℕ → Bytes
four_digits c = b'0' ∷ b'0' ∷ digit false (c / 16) ∷ digit false (c % 16) ∷ []

-- The text of a character below 128.
unfoldable pub char_text : ℕ → Bytes
char_text c =
    if c == b'"'
    then b'\\' ∷ b'"' ∷ []
    else if c == b'\\'
    then b'\\' ∷ b'\\' ∷ []
    else if c == 10
    then b'\\' ∷ b'n' ∷ []
    else if c == 13
    then b'\\' ∷ b'r' ∷ []
    else if c == 9
    then b'\\' ∷ b't' ∷ []
    else if ltb c 32
    then b'\\' ∷ b'u' ∷ four_digits c
    else c ∷ []
