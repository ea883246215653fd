-- ===== src/Ast/ControlFlow/Runs.antt =====
-- How pieces of a script can end, when nothing is known of the values in them.
use bpftrace.Ast.Expr.{land, lor, Operator}
use bpftrace.Prelude.{◌≡◌, ◌⊎◌, Bool, true, false, not, ◌&&◌}
use bpftrace.Ast.Statement.{
  return_jump, Node, JumpType, leaf, single, unevaluated, cast_expr, binop, array_access, arguments,
  if_expr, block_expr, Nodes, Block, more_nodes, braces, Stmts, more_stmts, Stmt, expr_stmt,
  assign_stmt, assign_map, jump, unroll, while_loop, no_expr, for_loop, no_nodes, no_stmts, declare,
}

pub data Ending : Type 0 where
  falls : Ending
  jumps : JumpType → Ending

abbrev pub IsJump : Ending → Type 0
IsJump falls = ⊥
IsJump (jumps j) = Unit

-- One part and then another: a jump in the first leaves the second out.
abbrev pub Then : (Ending → Type 0) → (Ending → Type 0) → Ending → Type 0
Then A B x = (IsJump x × A x) ⊎ (A falls × B x)

-- `&&` and `||` may leave their right side out.
abbrev pub is_logical : Operator → Bool
is_logical land = true
is_logical lor = true
is_logical _ = false

-- A loop falls through, or its body returns. A `break` or `continue` stays in the loop.
abbrev AfterLoop : (Ending → Type 0) → Ending → Type 0
AfterLoop body x = (x ≡ falls) ⊎ ((x ≡ jumps return_jump) × body x)

-- A condition is true or false as it likes; the body of `unroll` runs at least once, and that of a loop
-- any number of times.
abbrev mutual
  pub RunsNode : Node → Ending → Type 0
  RunsNode (leaf n) x = x ≡ falls
  RunsNode no_expr x = x ≡ falls
  RunsNode (single e) x = RunsNode e x
  RunsNode (unevaluated e) x = x ≡ falls
  RunsNode (cast_expr t e) x = RunsNode e x
  RunsNode (binop op a b) x =
      Then (RunsNode a) (RunsNode b) x ⊎ ((is_logical op ≡ true) × RunsNode a falls × (x ≡ falls))
  RunsNode (array_access a b) x = Then (RunsNode a) (RunsNode b) x
  RunsNode (arguments es) x = RunsNodes es x
  RunsNode (if_expr c l r) x = Then (RunsNode c) (λ y. RunsNode l y ⊎ RunsNode r y) x
  RunsNode (block_expr b) x = RunsBlock b x

  pub RunsNodes : Nodes → Ending → Type 0
  RunsNodes no_nodes x = x ≡ falls
  RunsNodes (more_nodes e es) x = Then (RunsNode e) (RunsNodes es) x

  pub RunsBlock : Block → Ending → Type 0
  RunsBlock (braces ss e) x = Then (RunsStmts ss) (RunsNode e) x

  pub RunsStmts : Stmts → Ending → Type 0
  RunsStmts no_stmts x = x ≡ falls
  RunsStmts (more_stmts s ss) x = Then (RunsStmt s) (RunsStmts ss) x

  pub RunsStmt : Stmt → Ending → Type 0
  RunsStmt (expr_stmt e) x = RunsNode e x
  RunsStmt (assign_stmt t e) x = RunsNode e x
  RunsStmt (assign_map key e) x = Then (RunsNode key) (RunsNode e) x
  RunsStmt (declare t) x = x ≡ falls
  RunsStmt (jump j e) x = Then (RunsNode e) (λ y. y ≡ jumps j) x
  RunsStmt (unroll e b) x = Then (RunsNode e) (RunsBlock b) x
  RunsStmt (while_loop c b) x = Then (RunsNode c) (AfterLoop (RunsBlock b)) x
  RunsStmt (for_loop range b) x = Then (RunsNode range) (AfterLoop (RunsBlock b)) x

-- No `while` loop, no `&&` or `||`, and no `sizeof`, `offsetof` or `typeinfo`.
abbrev mutual
  pub plain_node : Node → Bool
  plain_node (leaf n) = true
  plain_node no_expr = true
  plain_node (single e) = plain_node e
  plain_node (unevaluated e) = false
  plain_node (cast_expr t e) = plain_node e
  plain_node (binop op a b) = not (is_logical op) && (plain_node a && plain_node b)
  plain_node (array_access a b) = plain_node a && plain_node b
  plain_node (arguments es) = true
  plain_node (if_expr c l r) = plain_node c && (plain_node l && plain_node r)
  plain_node (block_expr b) = plain_block b

  pub plain_block : Block → Bool
  plain_block (braces ss e) = plain_stmts ss && plain_node e

  pub plain_stmts : Stmts → Bool
  plain_stmts no_stmts = true
  plain_stmts (more_stmts s ss) = plain_stmt s && plain_stmts ss

  pub plain_stmt : Stmt → Bool
  plain_stmt (expr_stmt e) = plain_node e
  plain_stmt (assign_stmt t e) = plain_node e
  plain_stmt (assign_map key e) = plain_node key && plain_node e
  plain_stmt (unroll e b) = plain_node e && plain_block b
  plain_stmt (while_loop c b) = false
  plain_stmt (for_loop range b) = plain_node range
  plain_stmt _ = true
