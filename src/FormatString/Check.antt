-- ===== src/FormatString/Check.antt =====
-- `FormatString::check` of src/format_string.cpp.
use bpftrace.FormatString.{FormatSpec, FormatString}
use bpftrace.Types.{SizedType, Kind, integer, sized, pointer}
use bpftrace.Prelude.{
  ℕ, Bool, true, false, ◌||◌, Option, none, some, List, [], ◌∷◌, ltb, if◌then◌else◌, length, Bytes,
  codes, text_eq,
}

-- The errors, with what their texts show.
pub data Error : Type 0 where
  not_enough_arguments : ℕ → ℕ → Error
  too_many_arguments : ℕ → ℕ → Error
  none_type : Bytes → Error
  unsupported_specifier : Bytes → Error
  unsupported_type : SizedType → Bytes → Error

pub data Outcome : Type 0 where
  ok : Outcome
  err : Error → Outcome

-- The enumerators of `Type` that stand in the table of `check`.
pub data Required : Type 0 where
  integer_type boolean_type pointer_type buffer_type : Required

-- `GetTy() == allowed`.
unfoldable pub has_type : SizedType → Required → Bool
has_type (integer bits signed name) integer_type = true
has_type (sized Kind.boolean bits signed) boolean_type = true
has_type (pointer pointee) pointer_type = true
has_type (sized Kind.buffer bits signed) buffer_type = true
has_type _ _ = false

unfoldable pub is_none_ty : SizedType → Bool
is_none_ty (sized Kind.none_t bits signed) = true
is_none_ty _ = false

abbrev pub any_integer : List Required
any_integer = integer_type ∷ boolean_type ∷ pointer_type ∷ []

-- `required_type`.
abbrev pub required_types : List (Bytes × List Required)
required_types =
    (codes "d", any_integer)
    ∷ (codes "i", any_integer)
    ∷ (codes "u", any_integer)
    ∷ (codes "o", any_integer)
    ∷ (codes "x", any_integer)
    ∷ (codes "X", any_integer)
    ∷ (codes "c", any_integer)
    ∷ (codes "r", buffer_type ∷ [])
    ∷ (codes "rx", buffer_type ∷ [])
    ∷ (codes "rh", buffer_type ∷ [])
    ∷ (codes "s", [])
    ∷ (codes "p", any_integer)
    ∷ []

unfoldable pub find_required : Bytes → List (Bytes × List Required) → Option (List Required)
find_required specifier [] = none
find_required specifier ((name, types) ∷ rest) =
    let later = find_required specifier rest in if text_eq name specifier then some types else later

-- The inner loop.
unfoldable pub is_allowed : SizedType → List Required → Bool
unfolding has_type
is_allowed arg [] = false
is_allowed arg (allowed ∷ rest) = has_type arg allowed || is_allowed arg rest

-- What is done with the entry of the table.
unfoldable pub check_allowed : FormatSpec → SizedType → Option (List Required) → Outcome
unfolding is_allowed
check_allowed spec arg none = err (unsupported_specifier spec.specifier)
check_allowed spec arg (some []) = ok
check_allowed spec arg (some (allowed ∷ rest)) =
    if is_allowed arg (allowed ∷ rest) then ok else err (unsupported_type arg spec.specifier)

-- One round of the outer loop.
unfoldable pub check_type : FormatSpec → SizedType → Outcome
check_type spec arg =
    if is_none_ty arg
    then err (none_type spec.specifier)
    else check_allowed spec arg (find_required spec.specifier required_types)

-- The outer loop, over the specifiers; the arguments are as many.
unfoldable pub check_types : List FormatSpec → List SizedType → Outcome
unfolding check_type
check_types (spec ∷ specs) (arg ∷ args) = elim (check_type spec arg) [
  | ok ↦ check_types specs args
  | err e ↦ err e
]
check_types [] _ = ok
check_types (spec ∷ specs) [] = ok

unfoldable pub check : FormatString → List SizedType → Outcome
unfolding check_types
check fmt args =
    if ltb (length args) (length fmt.specs)
    then err (not_enough_arguments (length args) (length fmt.specs))
    else if ltb (length fmt.specs) (length args)
    then err (too_many_arguments (length args) (length fmt.specs))
    else check_types fmt.specs args
