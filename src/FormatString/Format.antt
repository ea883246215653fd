-- ===== src/FormatString/Format.antt =====
-- `FormatSpec::apply` and `FormatString::format` of src/format_string.cpp.
use bpftrace.FormatString.{FormatSpec, FormatString}
use bpftrace.FormatString.Apply.{
  Printed, ok, err, Conversions, Target, signed, unsigned, character, as_signed_integer,
  as_unsigned_integer, as_floating_point, as_string, as_buffer,
}
use bpftrace.Output.Primitive.{Primitive}
use bpftrace.Output.Stream.{Stream, Base, Notation, new_stream}
use bpftrace.Output.Text.{Runtime}
use bpftrace.Prelude.{
  Bool, true, false, not, ◌&&◌, ◌||◌, Option, none, some, List, [], ◌∷◌, ◌++◌, if◌then◌else◌, Bytes,
  codes, text_eq,
}
use bpftrace.Prelude.Int.{pos, pos_part, ltb_ℤ}

abbrev pub is_any : Bytes → List Bytes → Bool
is_any s [] = false
is_any s (name ∷ names) = text_eq s name || is_any s names

-- `fragments.back()`.
unfoldable pub back : List Bytes → Option Bytes
back [] = none
back (fragment ∷ []) = some fragment
back (fragment ∷ next ∷ fragments) = back (next ∷ fragments)

-- The manipulators that `apply` writes to its stream.
unfoldable pub set_stream : FormatSpec → Stream
set_stream spec =
    let precise =
      not (ltb_ℤ spec.precision (pos 0))
      && is_any spec.specifier (
          codes "f"
          ∷ codes "F"
          ∷ codes "e"
          ∷ codes "E"
          ∷ codes "g"
          ∷ codes "G"
          ∷ codes "a"
          ∷ codes "A"
          ∷ []) in
    record new_stream {
      left = spec.left_align;
      width = spec.width;
      fill = if spec.lead_zeros then b'0' else b' ';
      precision = if precise then pos_part spec.precision else 6;
      notation =
          if precise && is_any spec.specifier (codes "f" ∷ codes "F" ∷ [])
          then Notation.fixed
          else if precise && is_any spec.specifier (codes "e" ∷ codes "E" ∷ [])
          then Notation.scientific
          else Notation.general;
      base =
          if text_eq spec.specifier (codes "o")
          then Base.oct
          else if is_any spec.specifier (codes "x" ∷ codes "X" ∷ [])
          then Base.hex
          else Base.dec;
      uppercase = text_eq spec.specifier (codes "X");
      showbase = spec.alternate_form;
      showpos = spec.show_sign;
    }

-- `SpecifierHandler`: the functions in the table of `apply`.
pub data Handler : Type 0 where
  signed_integer unsigned_integer : Target → Handler
  floating_point : Handler
  buffer : Bool → Bool → Handler
  string : Handler

-- `specifier_dispatch`, with the default.
unfoldable pub dispatch : Bytes → Handler
dispatch specifier =
    if is_any specifier (codes "d" ∷ codes "i" ∷ [])
    then signed_integer signed
    else if is_any specifier (codes "u" ∷ codes "o" ∷ codes "x" ∷ codes "X" ∷ [])
    then unsigned_integer unsigned
    else if is_any specifier (
        codes "f"
        ∷ codes "F"
        ∷ codes "e"
        ∷ codes "E"
        ∷ codes "g"
        ∷ codes "G"
        ∷ codes "a"
        ∷ codes "A"
        ∷ [])
    then floating_point
    else if text_eq specifier (codes "c")
    then signed_integer character
    else if text_eq specifier (codes "r")
    then buffer true true
    else if text_eq specifier (codes "rx")
    then buffer false true
    else if text_eq specifier (codes "rh")
    then buffer false false
    else if text_eq specifier (codes "p")
    then unsigned_integer Target.pointer
    else string

-- What `format` writes for an argument; an error is embedded.
unfoldable pub embed : Printed → Bytes
embed (ok ss) = ss.out
embed (err text) = codes "!{" ++ (text ++ codes "}")

module _ (host : Runtime) (conv : Conversions) where
  unfoldable pub handle : Handler → Stream → Primitive → Bytes → Printed
  handle (signed_integer target) ss p length_modifier =
      as_signed_integer host conv target ss p length_modifier
  handle (unsigned_integer target) ss p length_modifier =
      as_unsigned_integer host conv target ss p length_modifier
  handle floating_point ss p length_modifier = as_floating_point host conv ss p length_modifier
  handle (buffer keep_ascii escape_hex) ss p length_modifier =
      as_buffer host conv keep_ascii escape_hex ss p
  handle string ss p length_modifier = as_string host conv ss p

  -- `FormatSpec::apply`.
  unfoldable pub apply : FormatSpec → Primitive → Printed
  apply spec p = handle (dispatch spec.specifier) (set_stream spec) p spec.length_modifier

  -- The loop of `format`, and the last fragment behind it; `none` is a read out of range.
  unfoldable pub format_loop :
      Bytes → List Bytes → List FormatSpec → List Primitive → Bytes → Option Bytes
  unfolding apply embed
  format_loop last fragments specs [] ss = some (ss ++ last)
  format_loop last (fragment ∷ fragments) (spec ∷ specs) (arg ∷ args) ss =
      format_loop last fragments specs args (ss ++ (fragment ++ embed (apply spec arg)))
  format_loop last [] specs (arg ∷ args) ss = none
  format_loop last (fragment ∷ fragments) [] (arg ∷ args) ss = none

  unfoldable pub format : FormatString → List Primitive → Option Bytes
  unfolding format_loop back
  format fmt args = elim (back fmt.fragments) [
    | none ↦ none
    | some last ↦ format_loop last fmt.fragments fmt.specs args []
  ]
