-- ===== src/FormatString/Width.antt =====
-- The field width of a specifier is kept.
use bpftrace.FormatString.Apply.{
  Conversions, Target, signed, unsigned, character, floating, put_integer, wrap_signed,
  wrap_unsigned, Printed, put_value, put_double, as_number, ok, Cast, as_signed_integer, err, cast,
  cast_double, as_unsigned_integer, as_floating_point, as_string, as_buffer, to_signed,
  modifier_bits, to_unsigned, to_floating,
}
use bpftrace.Output.Primitive.{Primitive, Primitives, Fields, no_value, value, no_field, field}
use bpftrace.Output.Stream.{Stream, put, signed_text, unsigned_text}
use bpftrace.Output.Text.{Runtime, emit, emit_values, emit_fields, duration_str, unit_text}
use bpftrace.Prelude.{
  ◌+◌, ◌-◌, ◌≤◌, inl, inr, Bool, if◌then◌else◌, Bool-cases, length, replicate, length-replicate,
  Bytes, true, false, ◌++◌, arith, length-append, codes, ◌/◌, [], ◌∷◌, ℕ, text_eq, ◌≡◌, not, ◌&&◌,
}
use bpftrace.Prelude.Int.{ℤ, pos}
use bpftrace.Util.Strings.{hex_format_buffer}
use bpftrace.FormatString.Format.{
  apply, handle, set_stream, dispatch, Handler, signed_integer, unsigned_integer, floating_point,
}
use bpftrace.FormatString.{FormatSpec}
use bpftrace.FormatString.Refused.{is_err, is_number_format, is_number, handle-is_err}

module _ (ss : Stream) (text : Bytes) where
  length-put :
      (length ss.out + ss.width ≤ length (put ss text).out)
      × (length ss.out ≤ length (put ss text).out)
  unfolding put
  length-put =
      let padding = replicate (ss.width - length text) ss.fill in
      let room = length-replicate (ss.width - length text) ss.fill in
      let left = length-append text padding in
      let right = length-append padding text in
      let all_left = length-append ss.out (text ++ padding) in
      let all_right = length-append ss.out (padding ++ text) in
      elim (Bool-cases (ss.left)) [
        | inl t ↦ rw t (omega (arith, room, left, all_left), omega (arith, room, left, all_left))
        | inr f ↦
            rw f (omega (arith, room, right, all_right), omega (arith, room, right, all_right))
      ]

-- A step that writes at least what the width asks for, and takes nothing back.
abbrev Wide : Stream → Stream → Type 0
Wide ss ss' = (length ss.out + ss.width ≤ length ss'.out) × (length ss.out ≤ length ss'.out)

-- What holds of the stream, where there is no error.
abbrev pub Holds : (Stream → Type 0) → Printed → Type 0
Holds P (ok ss) = P ss
Holds P (err text) = Unit {0}

Holds-map :
    (P Q : Stream → Type 0) → ((ss : Stream) → P ss → Q ss) → (r : Printed) → Holds P r → Holds Q r
Holds-map P Q f (ok ss) h = f ss h
Holds-map P Q f (err text) h = tt

-- A step behind one that is wide enough.
abbrev Grows : Stream → Stream → Type 0
Grows ss ss' = length ss.out ≤ length ss'.out

enclosed :
    (ss opened inner : Stream) (text : Bytes)
    → Wide ss opened
    → Grows opened inner
    → Wide ss (put inner text)
enclosed ss opened inner text w g =
    let l = length-put inner text in (omega (arith, w, g, l), omega (arith, w, g, l))

-- The name of a field.
abbrev named_stream : Bytes → Stream → Stream
named_stream key ss = put (put (put ss (codes ".")) key) (codes " = ")

named-Grows : (key : Bytes) (ss : Stream) → Grows ss (named_stream key ss)
named-Grows key ss =
    let a = length-put ss (codes ".") in
    let b = length-put (put ss (codes ".")) key in
    let c = length-put (put (put ss (codes ".")) key) (codes " = ") in omega (arith, a, b, c)

module _ (host : Runtime) where
  mutual
    unfolding emit

    emit-Wide : (p : Primitive) (ss : Stream) → Wide ss (emit host p ss)
    emit-Wide Primitive.null ss = length-put ss (codes "null")
    emit-Wide (Primitive.boolean v) ss = length-put ss (if v then codes "true" else codes "false")
    emit-Wide (Primitive.int64 v) ss = length-put ss (signed_text ss v)
    emit-Wide (Primitive.uint64 v) ss = length-put ss (unsigned_text ss v)
    emit-Wide (Primitive.double v) ss = length-put ss (host.double_text ss false v)
    emit-Wide (Primitive.string v) ss = length-put ss v
    emit-Wide (Primitive.buffer v) ss = length-put ss (hex_format_buffer true true v)
    emit-Wide (Primitive.symbolic symbol numeric) ss = length-put ss symbol
    emit-Wide (Primitive.timestamp v) ss = length-put ss (host.timestamp_text v)
    emit-Wide (Primitive.array vs) ss =
        let opened = put ss (codes "[") in
        enclosed ss opened (emit_values host (codes ",") true vs opened) (codes "]")
          (length-put ss (codes "[")) (emit_values-Grows (codes ",") true vs opened)
    emit-Wide (Primitive.tuple vs) ss =
        let opened = put ss (codes "(") in
        enclosed ss opened (emit_values host (codes ", ") true vs opened) (codes ")")
          (length-put ss (codes "(")) (emit_values-Grows (codes ", ") true vs opened)
    emit-Wide (Primitive.record_t no_field) ss = length-put ss (codes "{}")
    emit-Wide (Primitive.record_t (field key v fs)) ss =
        let opened = put ss (codes "{ ") in
        enclosed ss opened (emit_fields host true (field key v fs) opened) (codes " }")
          (length-put ss (codes "{ ")) (emit_fields-Grows true (field key v fs) opened)
    emit-Wide (Primitive.duration v) ss =
        let (unit, scale) = duration_str v in
        let text = unsigned_text ss (v / scale) in
        enclosed ss (put ss text) (put ss text) (unit_text unit) (length-put ss text) (omega arith)

    emit_values-Grows :
        (separator : Bytes) (first : Bool) (vs : Primitives) (ss : Stream)
        → Grows ss (emit_values host separator first vs ss)
    emit_values-Grows separator first no_value ss = omega arith
    emit_values-Grows separator true (value v vs) ss =
        let e = emit-Wide v ss in
        omega (arith, e.1, emit_values-Grows separator false vs (emit host v ss))
    emit_values-Grows separator false (value v vs) ss =
        let p = length-put ss separator in
        let e = emit-Wide v (put ss separator) in
        omega
          (arith, p.1, e.1, emit_values-Grows separator false vs (emit host v (put ss separator)))

    emit_fields-Grows :
        (first : Bool) (fs : Fields) (ss : Stream) → Grows ss (emit_fields host first fs ss)
    emit_fields-Grows first no_field ss = omega arith
    emit_fields-Grows true (field key v fs) ss =
        let named = named-Grows key ss in
        let ss' = named_stream key ss in
        let e = emit-Wide v ss' in
        omega (arith, named, e.1, emit_fields-Grows false fs (emit host v ss'))
    emit_fields-Grows false (field key v fs) ss =
        let p = length-put ss (codes ", ") in
        let named = named-Grows key (put ss (codes ", ")) in
        let ss' = named_stream key (put ss (codes ", ")) in
        let e = emit-Wide v ss' in
        omega (arith, p.1, named, e.1, emit_fields-Grows false fs (emit host v ss'))

  module _ (conv : Conversions) where
    put_integer-Wide :
        (target : Target) (ss : Stream) (v : ℤ) → Wide ss (put_integer host conv target ss v)
    unfolding put_integer
    put_integer-Wide signed ss v = length-put ss (signed_text ss (wrap_signed 64 v))
    put_integer-Wide unsigned ss v = length-put ss (unsigned_text ss (wrap_unsigned 64 v))
    put_integer-Wide character ss v = length-put ss (wrap_unsigned 8 v ∷ [])
    put_integer-Wide Target.pointer ss v = length-put ss (conv.pointer_text ss (wrap_unsigned 64 v))
    put_integer-Wide (floating long) ss v =
        length-put ss (host.double_text ss long (conv.double_of v))

    put_value-Wide :
        (target : Target) (to : Cast) (ss : Stream) (v : ℤ)
        → Wide ss (put_value host conv target to ss v)
    unfolding put_value
    put_value-Wide Target.pointer to ss v = put_integer-Wide Target.pointer ss v
    put_value-Wide signed to ss v = put_integer-Wide signed ss (cast to v)
    put_value-Wide unsigned to ss v = put_integer-Wide unsigned ss (cast to v)
    put_value-Wide character to ss v = put_integer-Wide character ss (cast to v)
    put_value-Wide (floating long) to ss v = put_integer-Wide (floating long) ss (cast to v)

    put_double-Wide :
        (target : Target) (to : Cast) (ss : Stream) (v : ℕ)
        → Wide ss (put_double host conv target to ss v)
    unfolding put_double
    put_double-Wide (floating long) to ss v = length-put ss (host.double_text ss long v)
    put_double-Wide Target.pointer to ss v =
        put_integer-Wide Target.pointer ss (conv.integer_of false 64 v)
    put_double-Wide signed to ss v = put_integer-Wide signed ss (cast_double host conv to v)
    put_double-Wide unsigned to ss v = put_integer-Wide unsigned ss (cast_double host conv to v)
    put_double-Wide character to ss v = put_integer-Wide character ss (cast_double host conv to v)

    as_number-Wide :
        (target : Target) (to : Cast) (ss : Stream) (p : Primitive)
        → Holds (Wide ss) (as_number host conv target to ss p)
    unfolding as_number
    as_number-Wide target to ss (Primitive.symbolic symbol numeric) =
        put_value-Wide target to ss (pos numeric)
    as_number-Wide target to ss (Primitive.int64 v) = put_value-Wide target to ss v
    as_number-Wide target to ss (Primitive.uint64 v) = put_value-Wide target to ss (pos v)
    as_number-Wide target to ss (Primitive.double v) = put_double-Wide target to ss v
    as_number-Wide target to ss (Primitive.boolean v) =
        put_value-Wide target to ss (if v then pos 1 else pos 0)
    as_number-Wide target to ss Primitive.null = tt
    as_number-Wide target to ss _ = tt

    handle-Wide :
        (h : Handler) (ss : Stream) (p : Primitive) (length_modifier : Bytes)
        → Holds (Wide ss) (handle host conv h ss p length_modifier)
    unfolding handle as_signed_integer as_unsigned_integer as_floating_point as_string as_buffer
    handle-Wide (signed_integer target) ss p l =
        as_number-Wide target (to_signed (modifier_bits 32 l)) ss p
    handle-Wide (unsigned_integer target) ss p l =
        as_number-Wide target
          (if text_eq l (codes "t")
            then to_signed (modifier_bits 32 l)
            else to_unsigned (modifier_bits 32 l))
          ss p
    handle-Wide floating_point ss p l =
        as_number-Wide (floating (text_eq l (codes "L"))) to_floating ss p
    handle-Wide (Handler.buffer keep escape) ss (Primitive.buffer buf) l =
        length-put ss (hex_format_buffer keep escape buf)
    handle-Wide (Handler.buffer keep escape) ss p l = emit-Wide p ss
    handle-Wide Handler.string ss p l = emit-Wide p ss

    -- What a specifier prints, whatever the value, fills the field: it is at least as long as the
    -- width. It is an error to print exactly where the specifier has a number format and the value is
    -- no integer, double, Boolean or symbol.
    pub apply-width :
        (spec : FormatSpec) (p : Primitive)
        → Holds (λ ss. spec.width ≤ length ss.out) (apply host conv spec p)
          × (is_err (apply host conv spec p)
              ≡ (is_number_format (dispatch spec.specifier) && not (is_number p)))
    unfolding apply set_stream
    apply-width spec p = (
      Holds-map (Wide (set_stream spec)) (λ ss. spec.width ≤ length ss.out)
          (λ ss w. omega (arith, w.0)) (apply host conv spec p)
          (handle-Wide (dispatch spec.specifier) (set_stream spec) p spec.length_modifier),
      handle-is_err host conv (dispatch spec.specifier) (set_stream spec) p spec.length_modifier,
    )
