-- ===== src/Functions.antt =====
-- src/functions.h and src/functions.cpp: the registry of the functions that a script can call.
mod Registry
mod Tests
use bpftrace.Types.{string, fits_into, SizedType, sized, pointer, integer}
use bpftrace.Prelude.{
  suc, ◌+◌, ◌-◌, ◌/◌, ap, Bool, true, false, not, ◌&&◌, Option, none, some, List, [], ◌∷◌, ◌++◌,
  map, leb, ◌==◌, if◌then◌else◌, length, take, Bytes, text_eq,
}

pub data Origin : Type 0 where
  builtin script external : Origin

pub record Param : Type 0 where
  param_name : Bytes
  param_type : SizedType

pub record Function : Type 0 where
  name : Bytes
  return_type : SizedType
  params : List Param
  origin : Origin

abbrev pub is_builtin : Function → Bool
is_builtin f = elim f.origin [ builtin ↦ true | script ↦ false | external ↦ false ]

-- `FqName`.
pub record FqName : Type 0 where
  ns : Bytes
  local_name : Bytes

abbrev pub name_eq : FqName → FqName → Bool
name_eq a b = text_eq a.ns b.ns && text_eq a.local_name b.local_name

-- `funcs_by_fq_name_`; a function stands in it where the source has a reference into `all_funcs_`.
abbrev pub FunctionRegistry : Type 0
FunctionRegistry = List (FqName × List Function)

-- The candidates of a name; `none` where the map has no such key.
abbrev pub candidates : FqName → FunctionRegistry → Option (List Function)
candidates key [] = none
candidates key ((k, fs) ∷ rest) = if name_eq k key then some fs else candidates key rest

-- `emplace_back` to the candidates of a name; the map makes a missing entry.
abbrev pub append_to : FqName → Function → FunctionRegistry → FunctionRegistry
append_to key f [] = (key, f ∷ []) ∷ []
append_to key f ((k, fs) ∷ rest) =
    if name_eq k key then (k, fs ++ (f ∷ [])) ∷ rest else (k, fs) ∷ append_to key f rest

abbrev pub all_builtin : List Function → Bool
all_builtin [] = true
all_builtin (f ∷ fs) = is_builtin f && all_builtin fs

abbrev pub no_candidates : Option (List Function) → List Function
no_candidates none = []
no_candidates (some fs) = fs

-- `add`, with the namespace. `none` is the null pointer of a duplicate; the entry that the map
-- makes for a missing name gets the function at once.
unfoldable pub add :
    Origin
    → FqName
    → SizedType
    → List Param
    → FunctionRegistry
    → Option (Function × FunctionRegistry)
add new_origin key result ps registry =
    let f : Function = record {
      name = key.local_name;
      return_type = result;
      params = ps;
      origin = new_origin;
    } in
    if all_builtin (no_candidates (candidates key registry))
    then some (f, append_to key f registry)
    else none

abbrev pub is_string_type : SizedType → Bool
is_string_type (sized string b s) = true
is_string_type _ = false

-- A pointer to an integer of one byte.
abbrev pub is_byte_pointer : SizedType → Bool
is_byte_pointer (pointer (integer bits signed n)) = bits / 8 == 1
is_byte_pointer _ = false

unfoldable pub can_implicit_cast : SizedType → SizedType → Bool
unfolding fits_into
can_implicit_cast from to =
    if fits_into from to
    then true
    else if is_string_type from && is_byte_pointer to
    then true
    else is_string_type from && is_string_type to

-- Whether the parameters take the arguments: as many, and each by an implicit cast.
unfoldable pub takes : List Param → List SizedType → Bool
unfolding can_implicit_cast
takes [] [] = true
takes (p ∷ ps) (t ∷ ts) = can_implicit_cast t p.param_type && takes ps ts
takes _ _ = false

-- The candidate: the first that is no builtin, else the last.
abbrev pub preferred : Function → List Function → Function
preferred f [] = f
preferred f (g ∷ gs) = if not (is_builtin f) then f else preferred g gs

-- What `get` does: a function, one of its two errors, a failed assertion, or the error's message
-- read through a null pointer.
pub data Lookup : Type 0 where
  found : Function → Lookup
  not_found : Lookup
  cannot_call : Function → Lookup
  assertion_failed : Lookup
  null_candidate : Lookup

abbrev pub choose : List SizedType → List Function → Lookup
choose ts [] = null_candidate
choose ts (f ∷ fs) =
    if takes (preferred f fs).params ts
    then found (preferred f fs)
    else cannot_call (preferred f fs)

abbrev pub get_from : List SizedType → Option (List Function) → Lookup
get_from ts none = not_found
get_from ts (some fs) = if leb (length fs) 2 then choose ts fs else assertion_failed

unfoldable pub get : FqName → List SizedType → FunctionRegistry → Lookup
get key ts registry = get_from ts (candidates key registry)
