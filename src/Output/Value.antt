-- ===== src/Output/Value.antt =====
-- `Value` of src/output/output.h, but for time series, and its JSON in src/output/json.cpp.
use mathlib.Core.Option
use bpftrace.Output.Primitive.{Primitive}
use bpftrace.Output.Json.{emit_json, emit_string, key_text, emit_number}
use bpftrace.Output.Text.{Runtime}
use bpftrace.Output.Stream.{Stream, put, unsigned_text}
use bpftrace.Prelude.{
  ℕ, ◌-◌, ◌^◌, Bool, true, false, Option, none, some, List, [], ◌∷◌, leb, if◌then◌else◌, get_elem?,
  drop, codes,
}
use bpftrace.Prelude.Int.{ℤ, pos, negsuc, ◌-ℤ◌}

pub record Histogram : Type 0 where
  pub lower_bound : Option Primitive
  pub labels : List Primitive
  pub counts : List ℕ

mutual
  pub data Value : Type 0 where
    primitive : Primitive → Value
    histogram : Histogram → Value
    values : Values → Value
    ordered_map : Entries → Value
    stats_map : Entries → Value
    stats_primitive : Primitive → Value

  pub data Values : Type 0 where
    no_more : Values
    also : Value → Values → Values

  -- `OrderedMap`.
  pub data Entries : Type 0 where
    no_entry : Entries
    entry : Primitive → Value → Entries → Entries

-- `one_less`: the cast of a number of 64 bits wraps around.
unfoldable pub one_less : Primitive → Option ℤ
unfolding ◌-ℤ◌
one_less (Primitive.int64 v) = some (v -ℤ pos 1)
one_less (Primitive.uint64 v) =
    some (if leb v (2 ^ 63) then pos v -ℤ pos 1 else negsuc (2 ^ 64 - v))
one_less (Primitive.symbolic symbol v) =
    some (if leb v (2 ^ 63) then pos v -ℤ pos 1 else negsuc (2 ^ 64 - v))
one_less _ = none

-- The lower end of a bucket: of the first one, the bound if there is one; of any other, the label
-- before it, which is read out of range where there is none.
module _ (host : Runtime) where
  unfoldable pub emit_min : Bool → Option Primitive → Stream → Option Stream
  unfolding put emit_json
  emit_min true none out = some out
  emit_min false none out = none
  emit_min first (some label) out =
      some (put (emit_json host label (put out (codes "\"min\": "))) (codes ", "))

  -- The upper end of a bucket, if it has a label.
  unfoldable pub emit_max : Option Primitive → Stream → Stream
  unfolding put emit_json emit_number one_less
  emit_max none out = out
  emit_max (some label) out =
      let named = put out (codes "\"max\": ") in
      put
        (elim (one_less label) [ some v ↦ emit_number v named | none ↦ emit_json host label named ])
        (codes ", ")

  -- The loop over the counts. `previous` is the lower bound or the label before, `labels` are those
  -- that are left.
  unfoldable pub emit_buckets :
      Bool → Option Primitive → List Primitive → List ℕ → Stream → Option Stream
  unfolding put unsigned_text emit_min emit_max
  emit_buckets first previous labels [] out = some out
  emit_buckets first previous labels (count ∷ counts) out =
      let opened = put (if first then out else put out (codes ",")) (codes "{") in
      elim (emit_min first previous opened) [
        | none ↦ none
        | some named ↦
            let counted = put (emit_max (get_elem? labels 0) named) (codes "\"count\": ") in
            emit_buckets false (get_elem? labels 0) (drop 1 labels) counts
              (put (put counted (unsigned_text counted count)) (codes "}"))
      ]

  unfoldable pub emit_histogram : Histogram → Stream → Option Stream
  unfolding put emit_buckets
  emit_histogram hist out =
      Option.map (λ printed. put printed (codes "]"))
        (emit_buckets true hist.lower_bound hist.labels hist.counts (put out (codes "[")))

  -- `JsonEmitter<Value>`.
  unfoldable mutual
    unfolding put emit_json emit_histogram emit_string key_text

    pub emit_value : Value → Stream → Option Stream
    emit_value (primitive p) out = some (emit_json host p out)
    emit_value (histogram hist) out = emit_histogram hist out
    emit_value (values vs) out =
        Option.map (λ printed. put printed (codes "]")) (emit_all true vs (put out (codes "[")))
    emit_value (ordered_map m) out =
        Option.map (λ printed. put printed (codes "}")) (emit_entries true m (put out (codes "{")))
    emit_value (stats_map m) out =
        Option.map (λ printed. put printed (codes "}")) (emit_entries true m (put out (codes "{")))
    emit_value (stats_primitive p) out = some (emit_json host p out)

    pub emit_all : Bool → Values → Stream → Option Stream
    emit_all first no_more out = some out
    emit_all first (also v vs) out =
        elim (emit_value v (if first then out else put out (codes ","))) [
          | none ↦ none
          | some printed ↦ emit_all false vs printed
        ]

    pub emit_entries : Bool → Entries → Stream → Option Stream
    emit_entries first no_entry out = some out
    emit_entries first (entry key v es) out =
        elim (emit_value v (
          put (emit_string (key_text host key) (if first then out else put out (codes ", ")))
            (codes ": "))) [ none ↦ none | some printed ↦ emit_entries false es printed ]
