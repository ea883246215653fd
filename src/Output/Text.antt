-- ===== src/Output/Text.antt =====
-- src/output/text.cpp: the text of a primitive; src/util/time.cpp: the unit of a duration.
use bpftrace.Output.Primitive.{Primitive, Primitives, Fields, no_value, value, no_field, field}
use bpftrace.Output.Stream.{Stream, put, signed_text, unsigned_text}
use bpftrace.Prelude.{ℕ, ◌/◌, Bool, true, false, [], ◌∷◌, leb, if◌then◌else◌, Bytes, codes}
use bpftrace.Util.Strings.{hex_format_buffer}

-- What the C++ library and the host print: a double in a stream (a `long double` if the flag is set)
-- and by `std::to_string`, and a time stamp in local time.
pub record Runtime : Type 0 where
  pub double_text : Stream → Bool → ℕ → Bytes
  pub number_text : ℕ → Bytes
  pub timestamp_text : ℕ → Bytes

-- `DisplayUnit`.
pub data DisplayUnit : Type 0 where
  s ms us ns : DisplayUnit

-- `duration_str`.
unfoldable pub duration_str : ℕ → DisplayUnit × ℕ
duration_str count =
    if leb 1000000000 count
    then (s, 1000000000)
    else if leb 1000000 count
    then (ms, 1000000)
    else if leb 1000 count
    then (us, 1000)
    else (ns, 1)

-- `operator<<` of a display unit.
unfoldable pub unit_text : DisplayUnit → Bytes
unit_text ns = codes "ns"
unit_text ms = codes "ms"
unit_text us = 206 ∷ 188 ∷ b's' ∷ []
unit_text s = codes "s"

-- `TextEmitter<Primitive>::emit`; `first` is the flag of the loops.
module _ (host : Runtime) where
  unfoldable mutual
    pub emit : Primitive → Stream → Stream
    emit Primitive.null out = put out (codes "null")
    emit (Primitive.boolean v) out = put out (if v then codes "true" else codes "false")
    emit (Primitive.int64 v) out = put out (signed_text out v)
    emit (Primitive.uint64 v) out = put out (unsigned_text out v)
    emit (Primitive.double v) out = put out (host.double_text out false v)
    emit (Primitive.string v) out = put out v
    emit (Primitive.array vs) out =
        put (emit_values (codes ",") true vs (put out (codes "["))) (codes "]")
    emit (Primitive.buffer v) out = put out (hex_format_buffer true true v)
    emit (Primitive.tuple vs) out =
        put (emit_values (codes ", ") true vs (put out (codes "("))) (codes ")")
    emit (Primitive.record_t no_field) out = put out (codes "{}")
    emit (Primitive.record_t (field key v fs)) out =
        put (emit_fields true (field key v fs) (put out (codes "{ "))) (codes " }")
    emit (Primitive.symbolic symbol numeric) out = put out symbol
    emit (Primitive.timestamp v) out = put out (host.timestamp_text v)
    emit (Primitive.duration v) out =
        let (unit, scale) = duration_str v in
        put (put out (unsigned_text out (v / scale))) (unit_text unit)

    pub emit_values : Bytes → Bool → Primitives → Stream → Stream
    emit_values separator first no_value out = out
    emit_values separator first (value v vs) out =
        emit_values separator false vs (emit v (if first then out else put out separator))

    pub emit_fields : Bool → Fields → Stream → Stream
    emit_fields first no_field out = out
    emit_fields first (field key v fs) out = emit_fields false fs (
        emit v (
          put (put (put (if first then out else put out (codes ", ")) (codes ".")) key)
            (codes " = ")))
