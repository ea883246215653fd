-- ===== src/Output/Buckets.antt =====
-- The labels that the JSON of a histogram in src/output/json.cpp reads.
use native.Mathlib.Omega.{not-le}
use bpftrace.Output.Primitive.{Primitive}
use bpftrace.Output.Stream.{Stream, put}
use bpftrace.Output.Text.{Runtime}
use bpftrace.Output.Value.{Histogram, emit_min, emit_buckets, emit_histogram}
use bpftrace.Prelude.{
  ℕ, suc, ◌≤◌, ◌<◌, ◌≡◌, refl, true, false, none, Option, some, List, [], ◌∷◌, arith, length, ◌↔◌,
  sym, ap, ◌∙◌, codes,
}
use mathlib.Core.Option

module _ (host : Runtime) where
  -- Behind a bucket with a label, each bucket but the last needs one more.
  emit_buckets-later :
      (p : Primitive) (labels : List Primitive) (counts : List ℕ) (out : Stream)
      → length counts ≤ suc (length labels)
      → (after : Stream) × (emit_buckets host false (some p) labels counts out ≡ some after)
  unfolding emit_buckets emit_min
  emit_buckets-later p labels [] out h = (out, refl)
  emit_buckets-later p [] (c ∷ []) out h = (_, refl)
  emit_buckets-later p [] (c ∷ d ∷ counts) out h = absurd (omega (arith, h))
  emit_buckets-later p (l ∷ labels) (c ∷ counts) out h =
      emit_buckets-later l labels counts _ (omega (arith, h))

  emit_buckets-out_of_labels :
      (p : Primitive) (labels : List Primitive) (counts : List ℕ) (out : Stream)
      → suc (length labels) < length counts
      → emit_buckets host false (some p) labels counts out ≡ none
  unfolding emit_buckets emit_min
  emit_buckets-out_of_labels p labels [] out h = absurd (omega (arith, h))
  emit_buckets-out_of_labels p [] (c ∷ []) out h = absurd (omega (arith, h))
  emit_buckets-out_of_labels p [] (c ∷ d ∷ counts) out h = refl
  emit_buckets-out_of_labels p (l ∷ labels) (c ∷ counts) out h =
      emit_buckets-out_of_labels l labels counts _ (omega (arith, h))

  emit_buckets-labels :
      (bound : Option Primitive) (labels : List Primitive) (counts : List ℕ) (out : Stream)
      → length counts ≤ suc (length labels)
      → (after : Stream) × (emit_buckets host true bound labels counts out ≡ some after)
  unfolding emit_buckets emit_min
  emit_buckets-labels bound labels [] out h = (out, refl)
  emit_buckets-labels none [] (c ∷ []) out h = (_, refl)
  emit_buckets-labels (some b) [] (c ∷ []) out h = (_, refl)
  emit_buckets-labels bound [] (c ∷ d ∷ counts) out h = absurd (omega (arith, h))
  emit_buckets-labels none (l ∷ labels) (c ∷ counts) out h =
      emit_buckets-later l labels counts _ (omega (arith, h))
  emit_buckets-labels (some b) (l ∷ labels) (c ∷ counts) out h =
      emit_buckets-later l labels counts _ (omega (arith, h))

  emit_buckets-few_labels :
      (bound : Option Primitive) (labels : List Primitive) (counts : List ℕ) (out : Stream)
      → suc (length labels) < length counts
      → emit_buckets host true bound labels counts out ≡ none
  unfolding emit_buckets emit_min
  emit_buckets-few_labels bound labels [] out h = absurd (omega (arith, h))
  emit_buckets-few_labels bound [] (c ∷ []) out h = absurd (omega (arith, h))
  emit_buckets-few_labels none [] (c ∷ d ∷ counts) out h = refl
  emit_buckets-few_labels (some b) [] (c ∷ d ∷ counts) out h = refl
  emit_buckets-few_labels none (l ∷ labels) (c ∷ counts) out h =
      emit_buckets-out_of_labels l labels counts _ (omega (arith, h))
  emit_buckets-few_labels (some b) (l ∷ labels) (c ∷ counts) out h =
      emit_buckets-out_of_labels l labels counts _ (omega (arith, h))

-- The JSON of a histogram reads a label where there is none exactly when it has more than one count
-- more than labels.
pub emit_histogram-out_of_labels :
    (host : Runtime) (hist : Histogram) (out : Stream)
    → emit_histogram host hist out ≡ none ↔ suc (length hist.labels) < length hist.counts
unfolding emit_histogram
emit_histogram-out_of_labels host hist out =
    let opened = put out (codes "[") in
    (
      λ h. not-le (length hist.counts) (suc (length hist.labels)) (λ few.
          let printed =
            emit_buckets-labels host hist.lower_bound hist.labels hist.counts opened few in
          let e = sym h ∙ ap (Option.map (λ after. put after (codes "]"))) printed.1 in cc e),
      λ many.
          ap (Option.map (λ after. put after (codes "]")))
            (emit_buckets-few_labels host hist.lower_bound hist.labels hist.counts opened many),
    )
