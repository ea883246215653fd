-- ===== src/Struct/Manager.antt =====
-- `StructManager`: the table of the structs by name, an association list. A shared pointer to a
-- struct is the struct.
use bpftrace.Prelude.{
  ℕ, ◌≡◌, refl, ap, Bool, true, false, ◌||◌, Option, none, some, List, [], ◌∷◌, arith,
  if◌then◌else◌, Bytes, text_eq, sym, ◌∙◌, inl, inr, Bool-cases, text_eq_iff, Option-cases,
}
use bpftrace.Struct.{Struct, Field, empty_struct}
use bpftrace.Struct.Fields.{has_field, get_field}
use mathlib.Core.Bool.{false≢true}

abbrev pub Structs : Type 0
Structs = List (Bytes × Struct)

-- `Lookup`.
abbrev pub lookup : Bytes → Structs → Option Struct
lookup n [] = none
lookup n ((m, s) ∷ rest) = if text_eq m n then some s else lookup n rest

-- `Has`.
abbrev pub has : Bytes → Structs → Bool
has n [] = false
has n ((m, s) ∷ rest) = text_eq m n || has n rest

-- The map's `insert` where the name is new, and its assignment.
abbrev pub assign : Bytes → Struct → Structs → Structs
assign n s [] = (n, s) ∷ []
assign n s ((m, r) ∷ rest) = if text_eq m n then (m, s) ∷ rest else (m, r) ∷ assign n s rest

-- `Add` with a size. `none` is the exception "Type redefinition".
unfoldable pub add : Bytes → ℕ → Bool → Structs → Option (Struct × Structs)
add n size override table =
    if has n table
    then none
    else some (empty_struct size override, assign n (empty_struct size override) table)

-- `Add` with a struct.
unfoldable pub add_record : Bytes → Struct → Structs → Structs
add_record n s table = assign n s table

-- What `insert` leaves to `LookupOrAdd`: the struct there was, or the new one.
abbrev pub inserted : Bytes → Struct → Structs → Option Struct → Struct × Structs
inserted n fresh table none = (fresh, assign n fresh table)
inserted n fresh table (some s) = (s, table)

-- `LookupOrAdd`.
unfoldable pub lookup_or_add : Bytes → ℕ → Bool → Structs → Struct × Structs
lookup_or_add n size override table = inserted n (empty_struct size override) table (lookup n table)

abbrev pub field_of : Bytes → Option Struct → Option Field
field_of arg_name none = none
field_of arg_name (some args) = if has_field arg_name args then get_field arg_name args else none

-- `GetProbeArg`, by the name of the type of the probe's arguments.
unfoldable pub get_probe_arg : Bytes → Bytes → Structs → Option Field
get_probe_arg args_typename arg_name table = field_of arg_name (lookup args_typename table)

text_eq_trans_false :
    (a b c : Bytes) → text_eq a b ≡ false → text_eq a c ≡ true → text_eq b c ≡ false
text_eq_trans_false a b c h k = elim (Bool-cases (text_eq b c)) [
  | inl e ↦ absurd (
      false≢true
        (sym h ∙ (text_eq_iff a b).1 ((text_eq_iff a c).0 k ∙ sym ((text_eq_iff b c).0 e))))
  | inr e ↦ e
]

same_lookup_key : (a b c : Bytes) → text_eq a b ≡ true → text_eq a c ≡ text_eq b c
same_lookup_key a b c h = ap (λ n. text_eq n c) ((text_eq_iff a b).0 h)

lookup-assign :
    (n m : Bytes) (s : Struct) (table : Structs)
    → lookup m (assign n s table) ≡ (if text_eq n m then some s else lookup m table)
lookup-assign n m s [] = refl
lookup-assign n m s ((k, r) ∷ rest) =
    ground (arith, same_lookup_key k n m, text_eq_trans_false k n m, lookup-assign n m s rest)

has-lookup : (n : Bytes) (table : Structs) → has n table ≡ false → lookup n table ≡ none
has-lookup n [] h = refl
has-lookup n ((m, s) ∷ rest) h = ground (arith, has-lookup n rest)

-- `Add` with a size throws where the name is in the table; else it enters an empty struct of that
-- size under the name, which every later lookup of the name finds, and no other name's lookup
-- changes.
add-lookup :
    (n m : Bytes) (size : ℕ) (override : Bool) (table : Structs)
    → (has n table ≡ true → add n size override table ≡ none)
      × (has n table ≡ false
          → (after : Structs) × (add n size override table
              ≡ some (empty_struct size override, after))
            × (lookup n table ≡ none)
            × (lookup m after
                ≡ (if text_eq n m then some (empty_struct size override) else lookup m table)))
unfolding add
add-lookup n m size override table = (
  λ h. ground arith,
  λ h. (
    assign n (empty_struct size override) table,
    ground arith,
    has-lookup n table h,
    lookup-assign n m (empty_struct size override) table,
  ),
)

-- A found key's struct is that of an equal key.
lookup_equal :
    (n m : Bytes) (table : Structs) → text_eq n m ≡ true → lookup m table ≡ lookup n table
lookup_equal n m table h = sym (ap (λ k. lookup k table) ((text_eq_iff n m).0 h))

lookup-inserted :
    (n m : Bytes) (s : Struct) (table : Structs)
    → lookup m (inserted n s table (lookup n table)).1
      ≡ (if text_eq n m then some (inserted n s table (lookup n table)).0 else lookup m table)
lookup-inserted n m s table = elim (Option-cases (lookup n table)) [
  | inl e ↦ rw e (lookup-assign n m s table)
  | inr (r, e) ↦ rw e (ground (arith, lookup_equal n m table))
]

-- `LookupOrAdd` returns the struct that the name has in the table afterwards, changes no other
-- name's lookup, and where the name had a struct already returns that one and leaves the table as
-- it was, whatever size was asked for.
lookup_or_add-lookup :
    (n m : Bytes) (size : ℕ) (override : Bool) (table : Structs)
    → (lookup m (lookup_or_add n size override table).1
        ≡ (if text_eq n m then some (lookup_or_add n size override table).0 else lookup m table))
      × ((s : Struct) → lookup n table ≡ some s → lookup_or_add n size override table ≡ (s, table))
unfolding lookup_or_add
lookup_or_add-lookup n m size override table =
    (lookup-inserted n m (empty_struct size override) table, λ s h. rw h refl)
