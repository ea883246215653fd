-- ===== src/Output/Tests.antt =====
-- Printed values: runs of src/output at fixed inputs, and instances of the theorems.
use mathlib.Core.Option
use bpftrace.Output.Primitive.{Primitive, no_value, value, no_field, field}
use bpftrace.Output.Stream.{Stream, put, signed_text, unsigned_text, based, new_stream}
use bpftrace.Output.Text.{Runtime, emit, duration_str, unit_text}
use bpftrace.Output.Json.{
  emit_json, emit_string, emit_chars, emit_char, put_char, put_code, emit_number, is_double,
  key_text, strip_parens, erase_spaces,
}
use bpftrace.Output.Value.{
  Histogram, Value, histogram, no_entry, entry, ordered_map, emit_value, emit_histogram,
  emit_buckets, emit_min, emit_max, one_less,
}
use bpftrace.Output.Buckets.{emit_histogram-out_of_labels}
use bpftrace.Output.Quoted.Read.{Quotes, emit_string-Quotes}
use bpftrace.Util.Decimal.{to_string, digits}
use bpftrace.Prelude.{◌<◌, ◌≡◌, ◌↔◌, refl, true, none, some, [], ◌∷◌, ◌++◌, arith, Bytes, codes}
use bpftrace.Prelude.Int.{pos, negsuc, ◌-ℤ◌}

-- A host that prints no floating-point numbers.
abbrev host : Runtime
host = record {
  double_text = λ ss long v. to_string v;
  number_text = λ v. to_string v;
  timestamp_text = λ v. to_string v;
}

abbrev task : Primitive
task = Primitive.record_t (
    field (codes "pid") (Primitive.int64 (pos 7)) (
      field (codes "args")
        (Primitive.tuple
          (value (Primitive.boolean true) (value (Primitive.duration 2500) no_value)))
        no_field))

emit-task :
    (emit host task new_stream).out
    ≡ codes "{ .pid = 7, .args = (true, 2" ++ (206 ∷ 188 ∷ b's' ∷ codes ") }")
unfolding emit put signed_text unsigned_text duration_str unit_text to_string digits
emit-task = refl

abbrev named : Primitive
named = Primitive.record_t (
    field (codes "a\"b") (Primitive.uint64 9007199254740993) (
      field (codes "k")
        (Primitive.array (value (Primitive.int64 (negsuc 0)) (value Primitive.null no_value)))
        no_field))

-- An integer that is no double is printed as a string.
emit_json-named :
    (emit_json host named new_stream).out
    ≡ codes "{\"a\\\"b\": \"9007199254740993\", \"k\": [-1,null]}"
unfolding emit_json put emit_string emit_chars emit_char put_char emit_number is_double signed_text
    to_string digits
emit_json-named = refl

-- A map from strings to histograms, with a key that has a control character.
abbrev counted : Value
counted = ordered_map (
    entry (Primitive.string (1 ∷ []))
      (histogram (record {
        lower_bound = some (Primitive.uint64 0);
        labels = Primitive.uint64 1 ∷ [];
        counts = 26 ∷ [];
      }))
      no_entry)

-- The count behind that key is 26, printed in base sixteen.
emit_counted :
    Option.map (λ (printed : Stream). printed.out) (emit_value host counted new_stream)
    ≡ some (codes "{\"\\u0001\": [{\"min\": 0, \"max\": 0, \"count\": 1a}]}")
unfolding emit_value put emit_string emit_chars emit_char put_char put_code emit_histogram
    emit_buckets emit_min emit_max one_less emit_json emit_number is_double key_text strip_parens
    erase_spaces emit signed_text unsigned_text based to_string digits ◌-ℤ◌
emit_counted = refl

abbrev quoted : Bytes
quoted = b'"' ∷ 10 ∷ 31 ∷ b'a' ∷ []

emit_string-Quotes_example : Quotes quoted new_stream (emit_string quoted new_stream)
emit_string-Quotes_example =
    emit_string-Quotes quoted new_stream
      (record { no_width = refl; right = refl; lower_case = refl; no_base = refl })
      (omega arith, (omega arith, (omega arith, (omega arith, tt))))

-- Two counts and no label.
abbrev unlabelled : Histogram
unlabelled = record { lower_bound = none; labels = []; counts = 3 ∷ 4 ∷ [] }

emit_histogram-out_of_labels_example : emit_histogram host unlabelled new_stream ≡ none ↔ 1 < 2
emit_histogram-out_of_labels_example = emit_histogram-out_of_labels host unlabelled new_stream
