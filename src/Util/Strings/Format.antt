-- ===== src/Util/Strings/Format.antt =====
-- Formatted buffers, letter case and truth words.
use bpftrace.Util.Strings.{
  format_byte, hex_format_buffer, lower_byte, to_lower, is_str_bool_truthy, is_str_bool_falsy,
  is_last_byte, hex_digit,
}
use bpftrace.Prelude.{
  ℕ, ◌+◌, ◌-◌, ◌*◌, ◌/◌, ◌%◌, ◌≤◌, ◌<◌, ◌≡◌, refl, ap₂, Bool, true, false, ◌&&◌, [], ◌∷◌, arith,
  ltb, if◌then◌else◌, length, length-append, Bytes, ◌||◌, codes, text_eq,
}

length-format_byte :
    (keep_ascii escape_hex is_last : Bool) (b : ℕ)
    → length (format_byte keep_ascii escape_hex is_last b) ≤ 4
unfolding format_byte
length-format_byte keep_ascii escape_hex is_last b = ground arith

-- What is printed for a buffer never outgrows the four bytes for each byte that are allotted to it.
length-hex_format_buffer :
    (keep_ascii escape_hex : Bool) (buf : Bytes)
    → length (hex_format_buffer keep_ascii escape_hex buf) ≤ length buf * 4
unfolding hex_format_buffer
length-hex_format_buffer keep_ascii escape_hex [] = omega arith
length-hex_format_buffer keep_ascii escape_hex (b ∷ buf) = omega (
  arith,
  length-append (format_byte keep_ascii escape_hex (is_last_byte buf) b)
      (hex_format_buffer keep_ascii escape_hex buf),
  length-format_byte keep_ascii escape_hex (is_last_byte buf) b,
  length-hex_format_buffer keep_ascii escape_hex buf,
)

-- The value of a hexadecimal digit as it is printed.
abbrev pub unhex : ℕ → ℕ
unhex c = if ltb c 58 then c - 48 else c - 87

-- The bytes of a text that is printed as escapes only.
abbrev pub unescape : Bytes → Bytes
unescape (_ ∷ _ ∷ hi ∷ lo ∷ rest) = (unhex hi * 16 + unhex lo) ∷ unescape rest
unescape _ = []

abbrev pub AreBytes : Bytes → Type 0
AreBytes [] = Unit
AreBytes (b ∷ s) = (b < 256) × AreBytes s

unhex-hex_digit : (d : ℕ) → d < 16 → unhex (hex_digit d) ≡ d
unfolding hex_digit
unhex-hex_digit d h = ground arith

-- Printed with escapes and no plain text, a buffer can be read back.
pub unescape-hex_format_buffer :
    (buf : Bytes) → AreBytes buf → unescape (hex_format_buffer false true buf) ≡ buf
unfolding hex_format_buffer
unescape-hex_format_buffer [] h = refl
unescape-hex_format_buffer (b ∷ buf) h =
    ap₂ ◌∷◌
      (rw (unhex-hex_digit (b / 16) (omega arith), unhex-hex_digit (b % 16) (omega arith))
        (omega arith))
      (unescape-hex_format_buffer buf h.1)

lower_byte_idem : (c : ℕ) → lower_byte (lower_byte c) ≡ lower_byte c
unfolding lower_byte
lower_byte_idem c = ground arith

to_lower_idem : (s : Bytes) → to_lower (to_lower s) ≡ to_lower s
unfolding to_lower
to_lower_idem [] = refl
to_lower_idem (c ∷ s) = ap₂ ◌∷◌ (lower_byte_idem c) (to_lower_idem s)

abbrev is_any_of : Bytes → Bytes → Bytes → Bytes → Bytes → Bool
is_any_of v a b c d = text_eq v a || (text_eq v b || (text_eq v c || text_eq v d))

-- A word of the first list is none of the second.
words_apart :
    (v : Bytes)
    → (is_any_of v (codes "1") (codes "true") (codes "on") (codes "yes")
        && is_any_of v (codes "0") (codes "false") (codes "off") (codes "no"))
      ≡ false
words_apart [] = refl
words_apart (a ∷ []) = ground arith
words_apart (a ∷ b ∷ []) = ground arith
words_apart (a ∷ b ∷ c ∷ []) = ground arith
words_apart (a ∷ b ∷ c ∷ d ∷ []) = ground arith
words_apart (a ∷ b ∷ c ∷ d ∷ e ∷ v) = ground arith

-- No word is both true and false, whatever its letter case, and case does not matter to either
-- test.
truthy_falsy :
    (s : Bytes)
    → (is_str_bool_truthy (to_lower s) ≡ is_str_bool_truthy s)
      × (is_str_bool_falsy (to_lower s) ≡ is_str_bool_falsy s)
      × ((is_str_bool_truthy s && is_str_bool_falsy s) ≡ false)
unfolding is_str_bool_truthy is_str_bool_falsy
truthy_falsy s = (rw (to_lower_idem s), rw (to_lower_idem s), words_apart (to_lower s))
