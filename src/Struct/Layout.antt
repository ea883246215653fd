-- ===== src/Struct/Layout.antt =====
-- The layout that `CreateRecord` computes.
use bpftrace.Prelude.{
  ℕ, ◌+◌, ◌-◌, ◌%◌, ◌≤◌, ◌<◌, ◌≡◌, ap, none, List, [], ◌∷◌, if◌then◌else◌, sym, ◌∙◌, arith, refl,
  some, ◌++◌, map, Bytes, true, Option, ◌==◌,
}
use bpftrace.Struct.{
  padding, Field, get_in_tuple_alignment, get_size, SizedType, LoopState, place_all, other_names,
  place, first_name, plain_field, aligned_offset, close, create_record, Struct, empty_struct,
  close_all,
}
use native.Mathlib.Nat.{mod-lt, add-mod-mod, mod-add-mod, mod_self}
use mathlib.Core.List.{append-nil}
use mathlib.Core.Path.{subst}

padding-aligned : (align offset : ℕ) → 1 ≤ align → (offset + padding align offset) % align ≡ 0
unfolding padding
padding-aligned align offset h =
    add-mod-mod offset (align - offset % align) align
    ∙ sym (mod-add-mod offset align (align - offset % align))
    ∙ ap (λ k. k % align) remaining
    ∙ mod_self align
  where
    remaining : offset % align + (align - offset % align) ≡ align
    remaining = omega (arith, mod-lt offset h)

padding-lt : (align offset : ℕ) → 1 ≤ align → padding align offset < align
unfolding padding
padding-lt align offset h = mod-lt _ h

-- Fields one after the other from an offset on: each is aligned as its type asks, less than one
-- alignment behind the end of the one before it, and overlaps none.
pub data Laid : ℕ → List Field → ℕ → Type 0 where
  laid_none : {start : ℕ} → Laid start [] start
  laid_field :
      {start finish : ℕ} {f : Field} {fs : List Field}
      → start ≤ f.offset
      → f.offset < start + get_in_tuple_alignment f.type_
      → f.offset % get_in_tuple_alignment f.type_ ≡ 0
      → Laid (f.offset + get_size f.type_) fs finish
      → Laid start (f ∷ fs) finish

append-assoc-field : (fs gs : List Field) (f : Field) → (fs ++ f ∷ []) ++ gs ≡ fs ++ f ∷ gs
append-assoc-field [] gs f = refl
append-assoc-field (g ∷ fs) gs f = ap (λ r. g ∷ r) (append-assoc-field fs gs f)

abbrev pub AllAligned : List SizedType → Type 0
AllAligned [] = Unit
AllAligned (t ∷ ts) = (1 ≤ get_in_tuple_alignment t) × AllAligned ts

at_bounds :
    (t : SizedType) (offset : ℕ)
    → 1 ≤ get_in_tuple_alignment t
    → (offset ≤ aligned_offset t offset)
      × (aligned_offset t offset < offset + get_in_tuple_alignment t)
unfolding aligned_offset
at_bounds t offset h = omega (arith, padding-lt (get_in_tuple_alignment t) offset h)

at_aligned :
    (t : SizedType) (offset : ℕ)
    → 1 ≤ get_in_tuple_alignment t
    → aligned_offset t offset % get_in_tuple_alignment t ≡ 0
unfolding aligned_offset
at_aligned t offset h = padding-aligned (get_in_tuple_alignment t) offset h

head-placed :
    {r : Option LoopState} {s : LoopState} (a : ℕ)
    → 1 ≤ a
    → r ≡ some s
    → (if a == 0 then none else r) ≡ some s
head-placed a p e = ground arith

place_all-Laid :
    (ts : List SizedType) (names : List Bytes) (s : LoopState)
    → AllAligned ts
    → (fs : List Field) × (r : LoopState) × (place_all ts names s ≡ some r)
      × (r.laid_out.fields ≡ s.laid_out.fields ++ fs)
      × Laid s.next_offset fs r.next_offset
      × (map (λ f. f.type_) fs ≡ ts)
      × (s.laid_out.align ≤ r.laid_out.align)
unfolding place_all place
place_all-Laid [] names s h = ([], s, refl, sym (append-nil _), laid_none, refl, omega arith)
place_all-Laid (t ∷ ts) names s (p, h) =
    let (fs, r, e, fields, laid, types, wide) =
      place_all-Laid ts (other_names names) (place (first_name names) t s) h in
    (
      plain_field (first_name names) t (aligned_offset t s.next_offset) ∷ fs,
      r,
      head-placed (get_in_tuple_alignment t) p e,
      fields ∙ append-assoc-field _ _ _,
      laid_field (omega (arith, at_bounds t s.next_offset p))
          (omega (arith, at_bounds t s.next_offset p)) (at_aligned t s.next_offset p) laid,
      ap (λ us. t ∷ us) types,
      omega arith,
    )

close-size : (s : LoopState) → 1 ≤ s.laid_out.align → (close s).size % (close s).align ≡ 0
unfolding close
close-size s h = padding-aligned s.laid_out.align s.next_offset h

-- Where every type has an alignment (`AllAligned`: none is 0), `CreateRecord` returns a struct:
-- its fields are the given types in order, laid out from offset 0 (`Laid`: each aligned as its
-- type asks, at the first such offset behind the one before it), the last one ends inside the
-- struct, and the struct's size is a multiple of its alignment.
pub create_record-Laid :
    (ts : List SizedType) (names : List Bytes)
    → AllAligned ts
    → (r : Struct) × (finish : ℕ) × (create_record ts names ≡ some r)
      × (map (λ f. f.type_) r.fields ≡ ts)
      × Laid 0 r.fields finish
      × (finish ≤ r.size)
      × (r.size < finish + r.align)
      × (r.size % r.align ≡ 0)
unfolding create_record close
create_record-Laid ts names h =
    let (fs, r, e, fields, laid, types, wide) =
      place_all-Laid ts names (record { next_offset = 0; laid_out = empty_struct 0 true }) h in
    (
      close r,
      r.next_offset,
      ap close_all e,
      ap (map (λ f. f.type_)) fields ∙ types,
      subst (λ gs. Laid 0 gs r.next_offset) (sym fields) laid,
      omega arith,
      omega (arith, padding-lt r.laid_out.align r.next_offset wide),
      close-size r wide,
    )

place_all-zero :
    (t : SizedType) (ts us : List SizedType) (names : List Bytes) (s : LoopState)
    → get_in_tuple_alignment t ≡ 0
    → place_all (ts ++ t ∷ us) names s ≡ none
unfolding place_all
place_all-zero t [] us names s h = ground arith
place_all-zero t (u ∷ ts) us names s h =
    ground (arith, place_all-zero t ts us (other_names names) (place (first_name names) u s) h)

-- Where some type has the alignment 0, `CreateRecord` divides by zero, wherever the type stands
-- among the others.
create_record-zero :
    (t : SizedType) (ts us : List SizedType) (names : List Bytes)
    → get_in_tuple_alignment t ≡ 0
    → create_record (ts ++ t ∷ us) names ≡ none
unfolding create_record
create_record-zero t ts us names h =
    ap close_all
      (place_all-zero t ts us names (record { next_offset = 0; laid_out = empty_struct 0 true }) h)
