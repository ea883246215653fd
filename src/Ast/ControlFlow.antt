-- ===== src/Ast/ControlFlow.antt =====
-- src/ast/passes/control_flow_analyser.cpp: whether a piece of a script always ends in a jump.
mod Runs
mod Sound
mod Loops
mod Again
mod Settled
pub mod Ends
mod Disallowed
mod Escapes
mod Tests
use bpftrace.Prelude.{
  ℕ, zero, suc, ◌-◌, ◌/◌, ap, Bool, true, false, not, ◌&&◌, ◌||◌, Option, none, some, map,
  if◌then◌else◌, take,
}
use bpftrace.Ast.Statement.{
  JumpType, Stmt, Stmts, Node, Block, no_stmts, append_stmts, more_stmts, expr_stmt, braces, leaf,
  unevaluated, cast_expr, one_stmt, if_expr, single, block_expr, no_expr, binop, array_access,
  arguments, Nodes, more_nodes, assign_stmt, assign_map, jump, unroll, while_loop, for_loop,
  return_jump, no_nodes, continue_jump, declare, break_jump,
}

-- The parameter pack `Ts` of the analyser.
pub record Jumps : Type 0 where
  on_return : Bool
  on_continue : Bool
  on_break : Bool

abbrev pub wanted : JumpType → Jumps → Bool
wanted return_jump ts = ts.on_return
wanted continue_jump ts = ts.on_continue
wanted break_jump ts = ts.on_break

abbrev pub only_return : Jumps
only_return = record { on_return = true; on_continue = false; on_break = false }

-- The answer of a visit and the node after it, which the visit may have rewritten. `none`: out of fuel.
abbrev pub Visited : Type 0 → Type 0
Visited A = Option (Bool × A)

-- What the loop over the statements of a block has done: it went through, or one statement ended it,
-- with those before it visited and those after it not.
pub data Walk : Type 0 where
  passed : Stmts → Walk
  ended : Stmts → Stmt → Stmts → Walk

abbrev pub remake : {A B : Type 0} → (A → B) → Visited A → Visited B
remake f none = none
remake f (some (b, a)) = some (b, f a)

-- `||` of two visits: the second is made only where the first answers false.
abbrev pub either : {A B C : Type 0} → (A → B → C) → B → Visited A → Visited B → Visited C
either f right none r = none
either f right (some (true, a)) r = some (true, f a right)
either f right (some (false, a)) r = remake (f a) r

-- `&&` of two visits.
abbrev pub and_then : {A B C : Type 0} → (A → B → C) → B → Visited A → Visited B → Visited C
and_then f right none r = none
and_then f right (some (false, a)) r = some (false, f a right)
and_then f right (some (true, a)) r = remake (f a) r

-- A visit whose answer is discarded, and another one.
abbrev pub then_visit : {A B C : Type 0} → (A → B → C) → Visited A → Visited B → Visited C
then_visit f none r = none
then_visit f (some (x, a)) r = remake (f a) r

-- A visit whose answer is discarded, and false instead.
abbrev pub discard : {A B C : Type 0} → (A → B → C) → Visited A → Visited B → Visited C
discard f none r = none
discard f (some (x, a)) none = none
discard f (some (x, a)) (some (y, b)) = some (false, f a b)

abbrev pub is_none_expr : Node → Bool
is_none_expr no_expr = true
is_none_expr _ = false

-- One turn of the loop over the statements.
abbrev pub walk_on : Stmts → Visited Stmt → Option Walk → Option Walk
walk_on rest none w = none
walk_on rest (some (true, s)) w = some (ended no_stmts s rest)
walk_on rest (some (false, s)) none = none
walk_on rest (some (false, s)) (some (passed ss)) = some (passed (more_stmts s ss))
walk_on rest (some (false, s)) (some (ended ss t ts)) = some (ended (more_stmts s ss) t ts)

-- The unreachable statements, with the block's expression as the last of them.
abbrev pub dead_code : Stmts → Node → Stmts
dead_code rest e = if is_none_expr e then rest else append_stmts rest (one_stmt (expr_stmt e))

abbrev pub is_empty : Stmts → Bool
is_empty no_stmts = true
is_empty (more_stmts s ss) = false

-- The statement that takes the place of the one that ended the walk: it, or the dead code.
abbrev pub with_dead_code : Stmt → Stmts → Stmt
with_dead_code ret dead = expr_stmt (
    if_expr (leaf 1) (block_expr (braces (one_stmt ret) no_expr))
      (block_expr (braces dead no_expr)))

abbrev pub put_last : Stmts → Stmt → Block
put_last ss s = braces (append_stmts ss (one_stmt s)) no_expr

-- What follows the loop over the statements, with the visit of the block's expression.
unfoldable pub finish_block :
    (Stmt → Visited Stmt) → Node → Visited Node → Option Walk → Visited Block
finish_block again e visited none = none
finish_block again e visited (some (passed ss)) = remake (braces ss) visited
finish_block again e visited (some (ended ss ret rest)) =
    if is_empty (dead_code rest e)
    then some (true, put_last ss ret)
    else remake (put_last ss) (again (with_dead_code ret (dead_code rest e)))

-- `ControlFlowAnalyser::visit`. The rewritten statement of a block is visited again by the argument.
unfoldable mutual
  unfolding finish_block

  pub visit_node : (Jumps → Stmt → Visited Stmt) → Jumps → Node → Visited Node
  visit_node again ts (leaf n) = some (false, leaf n)
  visit_node again ts no_expr = some (false, no_expr)
  visit_node again ts (single e) = remake single (visit_node again ts e)
  visit_node again ts (unevaluated e) = remake unevaluated (visit_node again ts e)
  visit_node again ts (cast_expr t e) =
      then_visit cast_expr (visit_node again ts t) (visit_node again ts e)
  visit_node again ts (binop op a b) =
      either (binop op) b (visit_node again ts a) (visit_node again ts b)
  visit_node again ts (array_access a b) =
      either array_access b (visit_node again ts a) (visit_node again ts b)
  visit_node again ts (arguments es) = remake arguments (visit_nodes again ts es)
  visit_node again ts (if_expr c l r) =
      either (λ x (p : Node × Node). if_expr x p.0 p.1) (l, r) (visit_node again ts c)
        (and_then (λ x y. (x, y)) r (visit_node again ts l) (visit_node again ts r))
  visit_node again ts (block_expr b) = remake block_expr (visit_block again ts b)

  pub visit_nodes : (Jumps → Stmt → Visited Stmt) → Jumps → Nodes → Visited Nodes
  visit_nodes again ts no_nodes = some (false, no_nodes)
  visit_nodes again ts (more_nodes e es) =
      discard more_nodes (visit_node again ts e) (visit_nodes again ts es)

  pub visit_block : (Jumps → Stmt → Visited Stmt) → Jumps → Block → Visited Block
  visit_block again ts (braces ss e) =
      finish_block (again ts) e (visit_node again ts e) (walk again ts ss)

  pub walk : (Jumps → Stmt → Visited Stmt) → Jumps → Stmts → Option Walk
  walk again ts no_stmts = some (passed no_stmts)
  walk again ts (more_stmts s ss) = walk_on ss (visit_stmt again ts s) (walk again ts ss)

  pub visit_stmt : (Jumps → Stmt → Visited Stmt) → Jumps → Stmt → Visited Stmt
  visit_stmt again ts (expr_stmt e) = remake expr_stmt (visit_node again ts e)
  visit_stmt again ts (assign_stmt t e) =
      then_visit assign_stmt (visit_node again ts t) (visit_node again ts e)
  visit_stmt again ts (assign_map key e) =
      either assign_map e (visit_node again ts key) (visit_node again ts e)
  visit_stmt again ts (declare t) =
      then_visit (λ t (nothing : Unit {0}). declare t) (visit_node again ts t) (some (false, tt))
  visit_stmt again ts (jump j e) = some (wanted j ts, jump j e)
  visit_stmt again ts (unroll e b) =
      either unroll b (visit_node again ts e) (visit_block again ts b)
  visit_stmt again ts (while_loop c b) =
      let body = visit_block again only_return b in
      either while_loop b (visit_node again ts c) (if ts.on_return then body else some (false, b))
  visit_stmt again ts (for_loop range b) = remake (λ r. for_loop r b) (visit_node again ts range)

-- The visits to rewritten statements, by fuel.
unfoldable pub analyse : ℕ → Jumps → Stmt → Visited Stmt
analyse zero ts s = none
analyse (suc n) ts s = visit_stmt (analyse n) ts s

-- The visit of a whole block, as of a probe's.
unfoldable pub analyse_block : ℕ → Jumps → Block → Visited Block
unfolding analyse
analyse_block n ts b = visit_block (analyse n) ts b
