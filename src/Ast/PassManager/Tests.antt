-- ===== src/Ast/PassManager/Tests.antt =====
-- The theorem on the pass manager at two passes.
use bpftrace.Prelude.{
  ◌≡◌, refl, none, some, [], ◌∷◌, codes, ℕ, sym, ap, ◌∙◌, Bool, List, ltb, length, replicate,
  length-replicate,
}
use bpftrace.Ast.PassManager.Run.{
  Returned, ok, done, run, foreach, run_step, context_ok, run_pass, get_all, get, finish, put_all,
  put, write_all, write,
}
use bpftrace.Ast.PassManager.Found.{ReturnsOutputs, Complete, run-Complete}
use bpftrace.Ast.PassManager.Order.{InOrder, add-InOrder}
use bpftrace.Ast.PassManager.{PassManager, Pass, add, register}

abbrev parse_pass : Pass
parse_pass = record { name = codes "parse"; inputs = []; outputs = 7 ∷ [] }

abbrev check_pass : Pass
check_pass = record { name = codes "check"; inputs = 7 ∷ []; outputs = [] }

abbrev no_passes : PassManager
no_passes = record { passes = []; registered = [] }

abbrev one_pass : PassManager
one_pass = record { passes = parse_pass ∷ []; registered = (7, 0) ∷ [] }

abbrev two_passes : PassManager
two_passes = record { passes = parse_pass ∷ check_pass ∷ []; registered = (7, 0) ∷ [] }

no_passes-InOrder : InOrder no_passes
no_passes-InOrder = record { provided = λ t i h. cc; available = λ j t p h k. cc }

first_added : add parse_pass no_passes ≡ some one_pass
unfolding add register
first_added = refl

second_added : add check_pass one_pass ≡ some two_passes
unfolding add register
second_added = refl

-- A pass whose input no pass provides is a bug.
input_missing : add check_pass no_passes ≡ none
unfolding add register
input_missing = refl

add-InOrder_example : InOrder two_passes
add-InOrder_example =
    add-InOrder check_pass one_pass two_passes
      (add-InOrder parse_pass no_passes one_pass no_passes-InOrder first_added) second_added

-- Passes that return the state 5 for each output.
abbrev call : Pass → List ℕ → List ℕ × Returned ℕ ℕ
call pass states = (states, ok (replicate (length pass.outputs) 5))

abbrev diagnostics_ok : ℕ → Bool
diagnostics_ok state = ltb 0 state

call-ReturnsOutputs : ReturnsOutputs call 7 diagnostics_ok
call-ReturnsOutputs pass states outputs h =
    let e : replicate (length pass.outputs) 5 ≡ outputs = cc in
    sym (ap length e) ∙ length-replicate (length pass.outputs) 5

two_passes-run : run call 7 diagnostics_ok two_passes ≡ done ((7, 5) ∷ [])
unfolding run foreach run_step context_ok run_pass get_all get finish put_all put write_all write
two_passes-run = refl

run-Complete_example :
    Complete call 7 diagnostics_ok two_passes (run call 7 diagnostics_ok two_passes)
run-Complete_example =
    run-Complete call 7 diagnostics_ok two_passes
      (add-InOrder check_pass one_pass two_passes
        (add-InOrder parse_pass no_passes one_pass no_passes-InOrder first_added) second_added)
      call-ReturnsOutputs
