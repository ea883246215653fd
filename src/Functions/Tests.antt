-- ===== src/Functions/Tests.antt =====
-- The theorems on the registry at a builtin function and a script's function of one name.
use bpftrace.Prelude.{◌≡◌, refl, true, false, some, List, [], ◌∷◌, arith, if◌then◌else◌, codes}
use bpftrace.Functions.{
  FqName, Param, FunctionRegistry, Function, get, integer, builtin, script, add, takes,
  assertion_failed, found, cannot_call, name_eq,
}
use bpftrace.Types.{SizedType}
use bpftrace.Functions.Registry.{Built, built_add, built_empty, add-get}

abbrev int_type : SizedType
int_type = integer 64 true (codes "int64")

abbrev key : FqName
key = record { ns = []; local_name = codes "max" }

abbrev one_param : List Param
one_param = record { param_name = codes "a"; param_type = int_type } ∷ []

abbrev builtin_max : Function
builtin_max = record { name = codes "max"; return_type = int_type; params = []; origin = builtin }

abbrev script_max : Function
script_max = record {
  name = codes "max";
  return_type = int_type;
  params = one_param;
  origin = script;
}

abbrev first : FunctionRegistry
first = (key, builtin_max ∷ []) ∷ []

abbrev second : FunctionRegistry
second = (key, builtin_max ∷ script_max ∷ []) ∷ []

first-Built : Built first
unfolding add
first-Built = built_add builtin key int_type [] built_empty refl

second_added : add script key int_type one_param first ≡ some (script_max, second)
unfolding add
second_added = refl

add-get_example :
    (get key (int_type ∷ []) second
      ≡ (if takes one_param (int_type ∷ []) then found script_max else cannot_call script_max))
    × ((other : FqName)
        → name_eq key other ≡ false
        → get other (int_type ∷ []) second ≡ get other (int_type ∷ []) first)
add-get_example =
    add-get script key int_type one_param script_max first second (int_type ∷ []) (omega arith)
      second_added

-- A third function of the name, behind two builtin ones, makes every call of the name fail the
-- assertion.
third_candidate :
    get key [] ((key, builtin_max ∷ builtin_max ∷ script_max ∷ []) ∷ []) ≡ assertion_failed
unfolding get
third_candidate = refl
