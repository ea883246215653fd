-- ===== src/FormatString/Apply.antt =====
-- `FormatSpec::apply` and `FormatString::format` of src/format_string.cpp.
use bpftrace.Output.Primitive.{Primitive}
use bpftrace.Output.Stream.{Stream, put, new_stream, signed_text, unsigned_text}
use bpftrace.Output.Text.{Runtime, emit}
use bpftrace.Util.Strings.{hex_format_buffer}
use bpftrace.Prelude.{
  ℕ, ◌-◌, ◌*◌, ◌%◌, ◌^◌, Bool, true, false, [], ◌∷◌, ◌++◌, ltb, if◌then◌else◌, Bytes, codes,
  text_eq,
}
use bpftrace.Prelude.Int.{ℤ, pos, negsuc}

-- What `ss <<` receives in `as_number`: an integer of a signed or an unsigned type of 64 bits, a
-- `char`, a pointer, or a floating-point number, a `long double` if the flag is set.
pub data Target : Type 0 where
  signed unsigned character pointer : Target
  floating : Bool → Target

-- The type `Cast`: the width of an integer and its sign, or a floating-point type.
pub data Cast : Type 0 where
  to_signed to_unsigned : ℕ → Cast
  to_floating : Cast

-- `static_cast` of an integer to an unsigned type, and to a signed one.
unfoldable pub wrap_unsigned : ℕ → ℤ → ℕ
wrap_unsigned bits (pos n) = n % 2 ^ bits
wrap_unsigned bits (negsuc n) = 2 ^ bits - 1 - n % 2 ^ bits

unfoldable pub wrap_signed : ℕ → ℤ → ℤ
unfolding wrap_unsigned
wrap_signed bits v =
    let u = wrap_unsigned bits v in
    if ltb (2 * u) (2 ^ bits) then pos u else negsuc (2 ^ bits - 1 - u)

-- `Result<>` of the functions that print.
pub data Printed : Type 0 where
  ok : Stream → Printed
  err : Bytes → Printed

-- What the compiler and the C++ library do with floating-point numbers and pointers: conversions
-- from and to integers, of a width and a sign, and the text of a pointer.
pub record Conversions : Type 0 where
  pub double_of : ℤ → ℕ
  pub integer_of : Bool → ℕ → ℕ → ℤ
  pub pointer_text : Stream → ℕ → Bytes

-- `static_cast<Cast>` of an integer.
unfoldable pub cast : Cast → ℤ → ℤ
cast (to_signed bits) v = wrap_signed bits v
cast (to_unsigned bits) v = pos (wrap_unsigned bits v)
cast to_floating v = v

-- The width that a length modifier chooses; `plain` is that of no modifier.
unfoldable pub modifier_bits : ℕ → Bytes → ℕ
modifier_bits plain length_modifier =
    if text_eq length_modifier (codes "hh")
    then 8
    else if text_eq length_modifier (codes "h")
    then 16
    else if text_eq length_modifier (codes "l")
    then 64
    else if text_eq length_modifier (codes "ll")
    then 64
    else if text_eq length_modifier (codes "j")
    then 64
    else if text_eq length_modifier (codes "z")
    then 64
    else if text_eq length_modifier (codes "t")
    then 64
    else plain

module _ (host : Runtime) (conv : Conversions) where
  -- `static_cast<Cast>` of a double, where it does not stay one.
  unfoldable pub cast_double : Cast → ℕ → ℤ
  cast_double (to_signed bits) v = conv.integer_of true bits v
  cast_double (to_unsigned bits) v = conv.integer_of false bits v
  cast_double to_floating v = pos v

  -- `ss << static_cast<T>(...)` of an integer.
  unfoldable pub put_integer : Target → Stream → ℤ → Stream
  put_integer signed ss v = put ss (signed_text ss (wrap_signed 64 v))
  put_integer unsigned ss v = put ss (unsigned_text ss (wrap_unsigned 64 v))
  put_integer character ss v = put ss (wrap_unsigned 8 v ∷ [])
  put_integer pointer ss v = put ss (conv.pointer_text ss (wrap_unsigned 64 v))
  put_integer (floating long) ss v = put ss (host.double_text ss long (conv.double_of v))

  -- A pointer is made of the value itself: `Cast` is not used.
  unfoldable pub put_value : Target → Cast → Stream → ℤ → Stream
  put_value pointer to ss v = put_integer pointer ss v
  put_value target to ss v = put_integer target ss (cast to v)

  unfoldable pub put_double : Target → Cast → Stream → ℕ → Stream
  put_double (floating long) to ss v = put ss (host.double_text ss long v)
  put_double pointer to ss v = put_integer pointer ss (conv.integer_of false 64 v)
  put_double target to ss v = put_integer target ss (cast_double to v)

  -- `as_number`.
  unfoldable pub as_number : Target → Cast → Stream → Primitive → Printed
  as_number target to ss (Primitive.symbolic symbol numeric) =
      ok (put_value target to ss (pos numeric))
  as_number target to ss (Primitive.int64 v) = ok (put_value target to ss v)
  as_number target to ss (Primitive.uint64 v) = ok (put_value target to ss (pos v))
  as_number target to ss (Primitive.double v) = ok (put_double target to ss v)
  as_number target to ss (Primitive.boolean v) =
      ok (put_value target to ss (if v then pos 1 else pos 0))
  as_number target to ss p =
      err (codes "invalid integer conversion: " ++ (emit host p new_stream).out)

  unfoldable pub as_signed_integer : Target → Stream → Primitive → Bytes → Printed
  as_signed_integer target ss p length_modifier =
      as_number target (to_signed (modifier_bits 32 length_modifier)) ss p

  -- `ptrdiff_t` is signed.
  unfoldable pub as_unsigned_integer : Target → Stream → Primitive → Bytes → Printed
  as_unsigned_integer target ss p length_modifier =
      let bits = modifier_bits 32 length_modifier in
      as_number target
        (if text_eq length_modifier (codes "t") then to_signed bits else to_unsigned bits) ss p

  unfoldable pub as_floating_point : Stream → Primitive → Bytes → Printed
  as_floating_point ss p length_modifier =
      as_number (floating (text_eq length_modifier (codes "L"))) to_floating ss p

  unfoldable pub as_string : Stream → Primitive → Printed
  as_string ss p = ok (emit host p ss)

  unfoldable pub as_buffer : Bool → Bool → Stream → Primitive → Printed
  as_buffer keep_ascii escape_hex ss (Primitive.buffer buf) =
      ok (put ss (hex_format_buffer keep_ascii escape_hex buf))
  as_buffer keep_ascii escape_hex ss p = as_string ss p
