-- ===== src/Ast/RecursionCheck.antt =====
-- src/ast/passes/recursion_check.cpp: whether a program attaches to functions that need a guard
-- against recursion. What the probe matcher finds for an attach point is a parameter.
mod Guard
mod Tests
use bpftrace.ProbeTypes.{ProbeType, fentry, fexit, probetype}
use bpftrace.Ast.AttachPoint.{AttachPoint}
use bpftrace.Prelude.{
  ◌+◌, ◌-◌, ◌/◌, ap, Bool, true, false, ◌||◌, List, [], ◌∷◌, ◌++◌, if◌then◌else◌, Bytes, codes,
  text_eq,
}

-- `RECURSIVE_KERNEL_FUNCS`.
abbrev pub recursive_kernel_funcs : List Bytes
recursive_kernel_funcs =
    codes "vmlinux:_raw_spin_lock"
    ∷ codes "vmlinux:_raw_spin_lock_irqsave"
    ∷ codes "vmlinux:_raw_spin_unlock_irqrestore"
    ∷ codes "vmlinux:queued_spin_lock_slowpath"
    ∷ []

unfoldable pub contains_text : Bytes → List Bytes → Bool
contains_text s [] = false
contains_text s (t ∷ ts) = text_eq s t || contains_text s ts

unfoldable pub is_recursive_func : Bytes → Bool
unfolding contains_text
is_recursive_func func_name = contains_text func_name recursive_kernel_funcs

abbrev pub is_fentry_or_fexit : ProbeType → Bool
is_fentry_or_fexit fentry = true
is_fentry_or_fexit fexit = true
is_fentry_or_fexit _ = false

-- What the pass leaves: the flag `need_recursion_check_`, and the functions that it warned of.
pub record Checked : Type 0 where
  pub need_recursion_check : Bool
  pub warnings : List Bytes

-- The state after a loop, and whether the visit has returned from it.
pub data Flow : Type 0 where
  returned goes_on : Checked → Flow

-- The loop over the matches.
unfoldable pub visit_matches : List Bytes → Checked → Flow
visit_matches [] state = goes_on state
visit_matches (match ∷ matches) state =
    let rest = visit_matches matches state in
    if is_recursive_func match
    then returned (record { need_recursion_check = true; warnings = state.warnings ++ match ∷ [] })
    else rest

module _ (get_matches_for_ap : AttachPoint → List Bytes) where
  unfoldable pub visit_attach_point : AttachPoint → Checked → Flow
  visit_attach_point ap state =
      if is_fentry_or_fexit (probetype ap.provider)
      then visit_matches (get_matches_for_ap ap) state
      else goes_on state

  -- The loop over the attach points of a probe.
  unfoldable pub visit_probe : List AttachPoint → Checked → Flow
  visit_probe [] state = goes_on state
  visit_probe (ap ∷ aps) state = elim (visit_attach_point ap state) [
    | returned state' ↦ returned state'
    | goes_on state' ↦ visit_probe aps state'
  ]

  -- The loop over the probes of a program, which are given by their attach points.
  unfoldable pub visit_program : List (List AttachPoint) → Checked → Flow
  visit_program [] state = goes_on state
  visit_program (probe ∷ probes) state = elim (visit_probe probe state) [
    | returned state' ↦ returned state'
    | goes_on state' ↦ visit_program probes state'
  ]
