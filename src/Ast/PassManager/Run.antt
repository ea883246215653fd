-- ===== src/Ast/PassManager/Run.antt =====
-- `PassContext`, `Pass::run` and `PassManager::run` of src/ast/pass_manager.h, and
-- `PassManager::foreach` of src/ast/pass_manager.cpp.
use bpftrace.Ast.PassManager.{Pass, PassManager}
use bpftrace.Prelude.{
  ℕ, ◌⊎◌, inl, inr, Bool, true, Option, none, some, List, [], ◌∷◌, ◌==◌, if◌then◌else◌,
}

-- What the function of a pass returns: a state for each of its outputs, or an error.
pub data Returned (S E : Type 0) : Type 0 where
  ok : List S → Returned S E
  err : E → Returned S E

-- What a step of `foreach` leaves: a state, an error, or the report of a state that is not there,
-- which ends the program.
pub data Step (C E : Type 0) : Type 0 where
  done : C → Step C E
  failed : E → Step C E
  no_object : ℕ → Step C E

-- The first error stops the loop.
unfoldable pub foreach : {C E : Type 0} → (Pass → C → Step C E) → List Pass → C → Step C E
foreach fn [] ctx = done ctx
foreach fn (pass ∷ passes) ctx = elim (fn pass ctx) [
  | done ctx' ↦ foreach fn passes ctx'
  | failed e ↦ failed e
  | no_object t ↦ no_object t
]

-- `state_index_`, with the objects that it refers to.
abbrev pub Context : Type 0 → Type 0
Context S = List (ℕ × S)

module _ {S : Type 0} where
  unfoldable pub get : ℕ → Context S → Option S
  get t [] = none
  get t ((u, state) ∷ ctx) = if u == t then some state else get t ctx

  -- `emplace` keeps a state that is there.
  unfoldable pub put : ℕ → S → Context S → Context S
  put t state ctx = elim (get t ctx) [ none ↦ (t, state) ∷ ctx | some old ↦ ctx ]

  -- A pass writes to its inputs through references.
  unfoldable pub write : ℕ → S → Context S → Context S
  write t state [] = []
  write t state ((u, old) ∷ ctx) = if u == t then (u, state) ∷ ctx else (u, old) ∷ write t state ctx

  -- The inputs in order; `inr` is the type of the first that is not there.
  unfoldable pub get_all : List ℕ → Context S → List S ⊎ ℕ
  get_all [] ctx = inl []
  get_all (t ∷ ts) ctx = elim (get t ctx) [
    | none ↦ inr t
    | some state ↦ elim (get_all ts ctx) [ inl states ↦ inl (state ∷ states) | inr u ↦ inr u ]
  ]

  unfoldable pub write_all : List ℕ → List S → Context S → Context S
  write_all (t ∷ ts) (state ∷ states) ctx = write_all ts states (write t state ctx)
  write_all [] states ctx = ctx
  write_all (t ∷ ts) [] ctx = ctx

  unfoldable pub put_all : List ℕ → List S → Context S → Context S
  put_all (t ∷ ts) (state ∷ states) ctx = put_all ts states (put t state ctx)
  put_all [] states ctx = ctx
  put_all (t ∷ ts) [] ctx = ctx

-- `call` is the function of a pass: from the inputs to what it leaves in them and what it returns.
-- `diagnostics_ok` asks the state `ASTContext`, whose type is `ast_context`.
module _ {S E : Type 0} (call : Pass → List S → List S × Returned S E) (ast_context : ℕ)
    (diagnostics_ok : S → Bool) where
  unfoldable pub finish : Pass → Context S → List S × Returned S E → Step (Context S) E
  finish pass ctx (states, ok outputs) =
      done (put_all pass.outputs outputs (write_all pass.inputs states ctx))
  finish pass ctx (states, err e) = failed e

  -- The function that `createImpl` makes.
  unfoldable pub run_pass : Pass → Context S → Step (Context S) E
  run_pass pass ctx = elim (get_all pass.inputs ctx) [
    | inl states ↦ finish pass ctx (call pass states)
    | inr t ↦ no_object t
  ]

  -- `PassContext::ok`.
  unfoldable pub context_ok : Context S → Bool
  context_ok ctx = elim (get ast_context ctx) [ none ↦ true | some ast ↦ diagnostics_ok ast ]

  -- What `run` does for each pass: once there are error diagnostics, nothing.
  unfoldable pub run_step : Pass → Context S → Step (Context S) E
  run_step pass ctx = if context_ok ctx then run_pass pass ctx else done ctx

  unfoldable pub run : PassManager → Step (Context S) E
  run manager = foreach run_step manager.passes []
