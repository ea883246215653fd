-- ===== src/FormatString/Printed.antt =====
-- What the number formats and the hex dumps print can be read back.
use bpftrace.FormatString.{FormatSpec, negsuc}
use bpftrace.FormatString.Apply.{
  Conversions, as_number, as_signed_integer, as_unsigned_integer, as_buffer, put_integer, put_value,
  modifier_bits, cast, wrap_unsigned, wrap_signed,
}
use bpftrace.FormatString.Format.{apply, handle, dispatch, set_stream, embed}
use bpftrace.Output.Primitive.{Primitive}
use bpftrace.Output.Stream.{put, unsigned_text, signed_text}
use bpftrace.Output.Text.{Runtime}
use bpftrace.Util.Decimal.{to_string}
use bpftrace.Util.Strings.Format.{unescape, AreBytes, unescape-hex_format_buffer}
use bpftrace.Util.Decimal.Read.{to_uint-to_string}
use bpftrace.Util.IntParser.{to_uint}
use bpftrace.Prelude.{
  ℕ, suc, ◌-◌, ◌%◌, ◌^◌, ◌<◌, ◌≡◌, ap, true, false, ◌∷◌, ◌++◌, length, replicate, Bytes, codes,
  text_eq, [], ◌≤◌, refl, ◌⊎◌, inl, inr, arith,
}
use bpftrace.Util.IntParser

-- A specifier with no flag, no width and no precision.
abbrev pub bare_spec : Bytes → Bytes → FormatSpec
bare_spec length_modifier specifier = record {
  left_align = false;
  show_sign = false;
  space_prefix = false;
  alternate_form = false;
  lead_zeros = false;
  width = 0;
  precision = negsuc 0;
  length_modifier = length_modifier;
  specifier = specifier;
}

modifier_bits-cases :
    (l : Bytes)
    → (modifier_bits 32 l ≡ 8)
      ⊎ (modifier_bits 32 l ≡ 16)
      ⊎ (modifier_bits 32 l ≡ 32)
      ⊎ (modifier_bits 32 l ≡ 64)
unfolding modifier_bits
modifier_bits-cases l = ground arith

-- A number of at most 64 bits is not changed by the cast to 64 bits.
mod-modifier_bits :
    (l : Bytes) (n : ℕ) → n % 2 ^ modifier_bits 32 l % 2 ^ 64 ≡ n % 2 ^ modifier_bits 32 l
mod-modifier_bits l n = elim (modifier_bits-cases l) [
  | inl e ↦ rw e (omega arith)
  | inr (inl e) ↦ rw e (omega arith)
  | inr (inr (inl e)) ↦ rw e (omega arith)
  | inr (inr (inr e)) ↦ rw e (omega arith)
]

mod-modifier_bits_le : (l : Bytes) (n : ℕ) → n % 2 ^ modifier_bits 32 l ≤ 2 ^ 64 - 1
mod-modifier_bits_le l n = elim (modifier_bits-cases l) [
  | inl e ↦ rw e (omega arith)
  | inr (inl e) ↦ rw e (omega arith)
  | inr (inr (inl e)) ↦ rw e (omega arith)
  | inr (inr (inr e)) ↦ rw e (omega arith)
]

no_padding : (n : ℕ) (s : Bytes) → replicate (0 - n) 32 ++ s ≡ s
no_padding n s = let e : 0 - n ≡ 0 = omega arith in ap (λ k. replicate k 32 ++ s) e

wrap_negative :
    (n : ℕ)
    → n < 2 ^ 31
    → (wrap_signed 32 (negsuc n) ≡ negsuc n) × (wrap_signed 64 (negsuc n) ≡ negsuc n)
unfolding wrap_signed wrap_unsigned
wrap_negative n h = (ground (arith, h), ground (arith, h))

module _ (host : Runtime) (conv : Conversions) where
  -- Printed with no flag by `%u`, a number is read back modulo the width that the length modifier
  -- chooses, 32 bits if there is none; `t` chooses a signed type.
  pub to_uint-apply :
      (length_modifier : Bytes) (n : ℕ)
      → text_eq length_modifier (codes "t") ≡ false
      → to_uint
          (embed (apply host conv (bare_spec length_modifier (codes "u")) (Primitive.uint64 n)))
          0
        ≡ IntParser.ok (n % 2 ^ modifier_bits 32 length_modifier)
  unfolding apply handle dispatch set_stream as_unsigned_integer as_number put_value put_integer
      embed put unsigned_text wrap_unsigned cast
  to_uint-apply l n t =
      rw (t, mod-modifier_bits l n, no_padding) (to_uint-to_string _ (mod-modifier_bits_le l n))

  -- A buffer that is printed by `%rx` with no width can be read back.
  pub unescape-apply :
      (length_modifier buf : Bytes)
      → AreBytes buf
      → unescape
          (embed (apply host conv (bare_spec length_modifier (codes "rx")) (Primitive.buffer buf)))
        ≡ buf
  unfolding apply handle dispatch set_stream as_buffer embed put
  unescape-apply l buf b = rw no_padding (unescape-hex_format_buffer buf b)

  -- Where `%d`, with leading zeros, without left alignment and without a length modifier, prints a
  -- number from -2 ^ 31 to -1, the zeros that fill the field stand before the sign, not behind it.
  pub zeros_before_sign :
      (spec : FormatSpec) (n : ℕ)
      → spec.specifier ≡ codes "d"
      → spec.length_modifier ≡ []
      → spec.lead_zeros ≡ true
      → spec.left_align ≡ false
      → n < 2 ^ 31
      → embed (apply host conv spec (Primitive.int64 (negsuc n)))
        ≡ replicate (spec.width - suc (length (to_string (suc n)))) b'0'
          ++ (b'-' ∷ to_string (suc n))
  unfolding apply handle dispatch set_stream as_signed_integer as_number put_value put_integer embed
      put signed_text cast modifier_bits
  zeros_before_sign spec n s m z l h =
      let w = wrap_negative n h in rw (s, m, z, l) (rw (w.0, w.1) refl)
