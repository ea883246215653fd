-- ===== src/Ast/ControlFlow/Tests.antt =====
-- The analyser on small scripts, and its theorems there.
use bpftrace.Prelude.{◌≡◌, refl, true, false, some, sym, ◌≢◌, none}
use bpftrace.Ast.Statement.{Stmt, Block}
use bpftrace.Ast.ControlFlow.Disallowed.{errors_node}
use bpftrace.Ast.ControlFlow.{
  analyse_block, analyse, jump, braces, expr_stmt, visit_node, return_jump, no_stmts, one_stmt,
  if_expr, finish_block, no_expr, leaf, only_return, block_expr, with_dead_code, while_loop, Jumps,
  break_jump, assign_stmt, unevaluated,
}
use bpftrace.Ast.ControlFlow.Sound.{NeverFalls, analyse-NeverFalls, not_falls}
use bpftrace.Ast.ControlFlow.Runs.{RunsStmt, RunsBlock, falls}
use bpftrace.Ast.ControlFlow.Escapes.{NeverJumps, CalmBlock, errors_block-NeverJumps}
use bpftrace.Ast.ControlFlow.Settled.{analyse-again}
use bpftrace.Ast.ControlFlow.Ends.{Bounded}
use bpftrace.Ast.ControlFlow.Ends.All.{analyse-Bounded}

abbrev give_back : Stmt
give_back = jump return_jump no_expr

abbrev nothing : Block
nothing = braces no_stmts no_expr

abbrev ends : Stmt → Block
ends s = braces (one_stmt s) no_expr

-- if (x) { return; } else { return; }
abbrev both_return : Stmt
both_return =
    expr_stmt (if_expr (leaf 0) (block_expr (ends give_back)) (block_expr (ends give_back)))

both_answer : analyse 1 only_return both_return ≡ some (true, both_return)
unfolding analyse visit_node finish_block
both_answer = refl

analyse-NeverFalls_example : NeverFalls (RunsStmt both_return)
analyse-NeverFalls_example = analyse-NeverFalls 1 only_return both_return both_answer refl

-- { return; x } becomes { if (true) { return; } else { x; } }, and is not taken to return any more.
dead_expression :
    analyse_block 2 only_return (braces (one_stmt give_back) (leaf 7))
    ≡ some (false, ends (with_dead_code give_back (one_stmt (expr_stmt (leaf 7)))))
unfolding analyse_block visit_node finish_block
dead_expression = refl

-- What is disallowed in a probe.
abbrev in_probe : Jumps
in_probe = record { on_return = false; on_continue = true; on_break = true }

abbrev break_now : Stmt
break_now = jump break_jump no_expr

-- while (x) { break; }
abbrev breaking_loop : Block
breaking_loop = ends (while_loop (leaf 0) (ends break_now))

breaking_loop-CalmBlock : CalmBlock breaking_loop
breaking_loop-CalmBlock =
    (((λ j r. not_falls (sym r), (((λ j r. not_falls (sym r)), tt), tt)), tt), tt)

errors_block-NeverJumps_example : NeverJumps break_jump (RunsBlock breaking_loop)
unfolding errors_node
errors_block-NeverJumps_example =
    errors_block-NeverJumps in_probe break_jump breaking_loop refl refl breaking_loop-CalmBlock

-- { return; x } in a statement, and after a visit.
abbrev dead_block : Stmt
dead_block = expr_stmt (block_expr (braces (one_stmt give_back) (leaf 7)))

abbrev dead_block_visited : Stmt
dead_block_visited =
    expr_stmt (block_expr (ends (with_dead_code give_back (one_stmt (expr_stmt (leaf 7))))))

dead_block_visit : analyse 2 only_return dead_block ≡ some (false, dead_block_visited)
unfolding analyse visit_node finish_block
dead_block_visit = refl

analyse-again_example : analyse 1 only_return dead_block_visited ≡ some (false, dead_block_visited)
analyse-again_example = analyse-again 2 0 only_return dead_block dead_block_visit

analyse-Bounded_example : Bounded (λ n. analyse n only_return dead_block ≢ none)
analyse-Bounded_example = analyse-Bounded only_return dead_block

-- $x = sizeof({ return; }) is taken to return.
abbrev size_of_return : Stmt
size_of_return = assign_stmt no_expr (unevaluated (block_expr (ends give_back)))

sizeof_returns : analyse 1 only_return size_of_return ≡ some (true, size_of_return)
unfolding analyse visit_node finish_block
sizeof_returns = refl

sizeof_falls : RunsStmt size_of_return falls
sizeof_falls = refl
