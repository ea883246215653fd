-- ===== src/Struct/Fields.antt =====
-- src/struct.cpp: the fields of a struct by name.
use bpftrace.Prelude.{
  ◌≡◌, refl, ap, Bool, true, false, not, ◌||◌, Option, none, some, List, [], ◌∷◌, ◌++◌, arith, leb,
  if◌then◌else◌, length, Bytes, text_eq, sym, ◌∙◌, ◌↔◌, inl, inr, Bool-cases, text_eq_iff,
}
use bpftrace.Struct.{Struct, Field}
use mathlib.Core.Bool.{false≢true}

abbrev pub has_name : Bytes → List Field → Bool
has_name wanted [] = false
has_name wanted (f ∷ fs) = text_eq f.name wanted || has_name wanted fs

-- `HasField`.
abbrev pub has_field : Bytes → Struct → Bool
has_field wanted s = has_name wanted s.fields

abbrev pub first_named : Bytes → List Field → Option Field
first_named wanted [] = none
first_named wanted (f ∷ fs) = if text_eq f.name wanted then some f else first_named wanted fs

-- `GetField`. `none` is the exception "struct has no field named".
abbrev pub get_field : Bytes → Struct → Option Field
get_field wanted s = first_named wanted s.fields

abbrev pub set_fields : List Field → Struct → Struct
set_fields fs s = record {
  size = s.size;
  align = s.align;
  padded = s.padded;
  fields = fs;
  allow_override = s.allow_override;
}

-- `AddField`.
unfoldable pub add_field : Field → Struct → Struct
add_field f s = if not (has_field f.name s) then set_fields (s.fields ++ (f ∷ [])) s else s

-- `HasFields`.
abbrev pub has_fields : Struct → Bool
has_fields s = leb 1 (length s.fields)

-- `ClearFields`.
abbrev pub clear_fields : Struct → Struct
clear_fields s = set_fields [] s

-- No two fields have one name.
abbrev pub DistinctNames : List Field → Type 0
DistinctNames [] = Unit
DistinctNames (f ∷ fs) = (has_name f.name fs ≡ false) × DistinctNames fs

has_name-append :
    (wanted : Bytes) (fs : List Field) (f : Field)
    → has_name wanted (fs ++ f ∷ []) ≡ (has_name wanted fs || text_eq f.name wanted)
has_name-append wanted [] f = ground arith
has_name-append wanted (g ∷ fs) f = ground (arith, has_name-append wanted fs f)

text_eq-false : (a b : Bytes) → text_eq a b ≡ false → text_eq b a ≡ false
text_eq-false a b h = elim (Bool-cases (text_eq b a)) [
  | inl e ↦ absurd (false≢true (sym h ∙ (text_eq_iff a b).1 (sym ((text_eq_iff b a).0 e))))
  | inr e ↦ e
]

distinct-append :
    (fs : List Field) (f : Field)
    → DistinctNames fs
    → has_name f.name fs ≡ false
    → DistinctNames (fs ++ f ∷ [])
distinct-append [] f d h = (refl, tt)
distinct-append (g ∷ fs) f (n, d) h = (
  ground (arith, has_name-append g.name fs f, text_eq-false g.name f.name),
  distinct-append fs f d (ground arith),
)

-- The first field of a name among some and one more.
first_named-append :
    (wanted : Bytes) (fs : List Field) (f : Field)
    → first_named wanted (fs ++ f ∷ []) ≡ (
        if has_name wanted fs
        then first_named wanted fs
        else if text_eq f.name wanted
        then some f
        else none)
first_named-append wanted [] f = refl
first_named-append wanted (g ∷ fs) f = ground (arith, first_named-append wanted fs f)

-- `GetField` finds a field exactly where `HasField` holds.
found :
    (wanted : Bytes) (fs : List Field)
    → has_name wanted fs ≡ true
    → (f : Field) × (first_named wanted fs ≡ some f)
found wanted [] h = cc
found wanted (g ∷ fs) h = elim (Bool-cases (text_eq g.name wanted)) [
  | inl e ↦ (g, ground arith)
  | inr e ↦ let (f, k) = found wanted fs (ground arith) in (f, ground arith)
]

named :
    (wanted : Bytes) (fs : List Field)
    → (f : Field) × (first_named wanted fs ≡ some f)
    → has_name wanted fs ≡ true
named wanted [] (f, h) = cc
named wanted (g ∷ fs) (f, h) = elim (Bool-cases (text_eq g.name wanted)) [
  | inl e ↦ ground arith
  | inr e ↦ ground (arith, named wanted fs (f, ground arith))
]

missing :
    (wanted : Bytes) (fs : List Field) → has_name wanted fs ≡ false → first_named wanted fs ≡ none
missing wanted [] h = refl
missing wanted (g ∷ fs) h = ground (arith, missing wanted fs)

same_has_name : (a b : Bytes) (fs : List Field) → text_eq a b ≡ true → has_name a fs ≡ has_name b fs
same_has_name a b fs h = ap (λ n. has_name n fs) ((text_eq_iff a b).0 h)

-- `AddField` keeps the fields' names distinct, and the first field added under a name stays:
-- looking a name up afterwards finds what it found before where there was one, else the new field
-- where the name is its own.
add_field-get_field :
    (f : Field) (s : Struct) (wanted : Bytes)
    → (DistinctNames s.fields → DistinctNames (add_field f s).fields)
      × (get_field wanted (add_field f s) ≡ (
          if has_field wanted s
          then get_field wanted s
          else if text_eq f.name wanted
          then some f
          else none))
unfolding add_field
add_field-get_field f s wanted = elim (Bool-cases (has_name f.name s.fields)) [
  | inl e ↦
      rw e (λ d. d, ground (arith, missing wanted s.fields, same_has_name f.name wanted s.fields))
  | inr e ↦ rw e (λ d. distinct-append s.fields f d e, first_named-append wanted s.fields f)
]

-- `GetField` returns a field, and does not throw, exactly where `HasField` holds; the field has
-- the name asked for.
get_field_iff :
    (wanted : Bytes) (s : Struct)
    → has_field wanted s ≡ true ↔ ((f : Field) × (get_field wanted s ≡ some f))
get_field_iff wanted s = (found wanted s.fields, named wanted s.fields)
