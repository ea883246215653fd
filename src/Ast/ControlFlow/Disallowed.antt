-- ===== src/Ast/ControlFlow/Disallowed.antt =====
-- src/ast/passes/control_flow_analyser.cpp: `JumpDisallowed`, with the number of errors that it adds.
use bpftrace.Ast.Statement.{
  Node, leaf, no_expr, single, unevaluated, cast_expr, binop, array_access, arguments, if_expr,
  block_expr, Nodes, no_nodes, more_nodes, Block, braces, Stmt, expr_stmt, assign_stmt, assign_map,
  declare, jump, unroll, while_loop, for_loop, Stmts, no_stmts, more_stmts,
}
use bpftrace.Prelude.{ℕ, ◌+◌, Bool, true, false}
use bpftrace.Ast.ControlFlow.{Jumps, wanted, only_return}

-- Inside a loop over a range or a map, `return` is disallowed; inside `while`, where it was outside.
abbrev pub in_while : Jumps → Jumps
in_while ts = record { on_return = ts.on_return; on_continue = false; on_break = false }

abbrev pub jump_error : Bool → ℕ
jump_error true = 1
jump_error false = 0

-- The jumps are those that are disallowed. The condition of `while`, what `for` goes through, and
-- the value of a jump are not visited.
unfoldable mutual
  pub errors_node : Jumps → Node → ℕ
  errors_node ts (leaf n) = 0
  errors_node ts no_expr = 0
  errors_node ts (single e) = errors_node ts e
  errors_node ts (unevaluated e) = errors_node ts e
  errors_node ts (cast_expr t e) = errors_node ts t + errors_node ts e
  errors_node ts (binop op a b) = errors_node ts a + errors_node ts b
  errors_node ts (array_access a b) = errors_node ts b + errors_node ts a
  errors_node ts (arguments es) = errors_nodes ts es
  errors_node ts (if_expr c l r) = errors_node ts c + (errors_node ts l + errors_node ts r)
  errors_node ts (block_expr b) = errors_block ts b

  pub errors_nodes : Jumps → Nodes → ℕ
  errors_nodes ts no_nodes = 0
  errors_nodes ts (more_nodes e es) = errors_node ts e + errors_nodes ts es

  pub errors_block : Jumps → Block → ℕ
  errors_block ts (braces ss e) = errors_stmts ts ss + errors_node ts e

  pub errors_stmts : Jumps → Stmts → ℕ
  errors_stmts ts no_stmts = 0
  errors_stmts ts (more_stmts s ss) = errors_stmt ts s + errors_stmts ts ss

  pub errors_stmt : Jumps → Stmt → ℕ
  errors_stmt ts (expr_stmt e) = errors_node ts e
  errors_stmt ts (assign_stmt t e) = errors_node ts t + errors_node ts e
  errors_stmt ts (assign_map key e) = errors_node ts key + errors_node ts e
  errors_stmt ts (declare t) = errors_node ts t
  errors_stmt ts (jump j e) = jump_error (wanted j ts)
  errors_stmt ts (unroll e b) = errors_node ts e + errors_block ts b
  errors_stmt ts (while_loop c b) = errors_block (in_while ts) b
  errors_stmt ts (for_loop range b) = errors_block only_return b
