-- ===== src/Ast/RecursionCheck/Tests.antt =====
-- The check for recursion: a run of src/ast/passes/recursion_check.cpp, and an instance of the theorem.
use bpftrace.Ast.AttachPoint.{AttachPoint, make_attachpoint}
use bpftrace.ProbeTypes.{probetype, probe_list, find_item}
use bpftrace.Util.Strings.{to_lower, lower_byte}
use bpftrace.Ast.RecursionCheck.{
  Checked, returned, visit_matches, visit_attach_point, visit_probe, visit_program,
  is_recursive_func, contains_text,
}
use bpftrace.Ast.RecursionCheck.Guard.{Guards, OfProgram, visit_program-Guards}
use bpftrace.Prelude.{◌≡◌, refl, true, false, List, [], ◌∷◌, ◌++◌, Bytes, codes}

-- A matcher that finds the function of the attach point in the kernel itself.
abbrev matcher : AttachPoint → List Bytes
matcher point = (codes "vmlinux:" ++ point.func) ∷ []

abbrev attach_point : Bytes → Bytes → AttachPoint
attach_point provider func = record (make_attachpoint [] false) { provider = provider; func = func }

abbrev spin_lock : List (List AttachPoint)
spin_lock =
    (attach_point (codes "kprobe") (codes "_raw_spin_lock") ∷ [])
    ∷ (attach_point (codes "fexit") (codes "_raw_spin_lock") ∷ [])
    ∷ []

abbrev unchecked : Checked
unchecked = record { need_recursion_check = false; warnings = [] }

visit_spin_lock :
    visit_program matcher spin_lock unchecked
    ≡ returned
        (record { need_recursion_check = true; warnings = codes "vmlinux:_raw_spin_lock" ∷ [] })
unfolding visit_program visit_probe visit_attach_point visit_matches is_recursive_func contains_text
    probetype probe_list find_item to_lower lower_byte
visit_spin_lock = refl

visit_program-Guards_example :
    Guards (OfProgram matcher spin_lock) unchecked (visit_program matcher spin_lock unchecked)
visit_program-Guards_example = visit_program-Guards matcher spin_lock unchecked
