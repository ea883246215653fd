-- ===== src/Ast/PassManager.antt =====
-- src/ast/pass_manager.h and src/ast/pass_manager.cpp: the order in which passes are registered.
-- Types of pass states are their numbers.
mod Order
pub mod Run
mod Found
mod Tests
use bpftrace.Prelude.{
  ℕ, ◌+◌, ◌-◌, ◌/◌, Bool, true, false, ◌&&◌, Option, none, some, List, [], ◌∷◌, ◌++◌, ◌==◌,
  if◌then◌else◌, length, Bytes,
}

pub record Pass : Type 0 where
  pub name : Bytes
  pub inputs : List ℕ
  pub outputs : List ℕ

pub record PassManager : Type 0 where
  pub passes : List Pass
  pub registered : List (ℕ × ℕ)

-- The pass that a type is an output of.
abbrev pub provider : ℕ → List (ℕ × ℕ) → Option ℕ
provider t [] = none
provider t ((u, i) ∷ rest) = if u == t then some i else provider t rest

abbrev pub is_registered : Option ℕ → Bool
is_registered none = false
is_registered (some i) = true

-- The check of the inputs.
abbrev pub all_available : List ℕ → List (ℕ × ℕ) → Bool
all_available [] outs = true
all_available (t ∷ ts) outs = is_registered (provider t outs) && all_available ts outs

-- The registration of the outputs. `none` ends the program with a bug report.
unfoldable pub register : ℕ → List ℕ → List (ℕ × ℕ) → Option (List (ℕ × ℕ))
register pass_id [] outs = some outs
register pass_id (t ∷ ts) outs =
    let rest = register pass_id ts ((t, pass_id) ∷ outs) in
    if is_registered (provider t outs) then none else rest

abbrev pub added : Pass → PassManager → Option (List (ℕ × ℕ)) → Option PassManager
added p m none = none
added p m (some outs) = some (record { passes = m.passes ++ (p ∷ []); registered = outs })

-- `add`. `none` ends the program with a bug report.
unfoldable pub add : Pass → PassManager → Option PassManager
add p m =
    let registers = added p m (register (length m.passes) p.outputs m.registered) in
    if all_available p.inputs m.registered then registers else none
