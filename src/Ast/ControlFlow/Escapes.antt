-- ===== src/Ast/ControlFlow/Escapes.antt =====
-- What gets past the check of jumps.
use bpftrace.Ast.Statement.{
  JumpType, Node, leaf, no_expr, single, unevaluated, cast_expr, binop, array_access, arguments,
  if_expr, block_expr, Nodes, no_nodes, more_nodes, Block, braces, Stmt, expr_stmt, assign_stmt,
  assign_map, declare, jump, unroll, while_loop, for_loop, Stmts, no_stmts, more_stmts,
}
use bpftrace.Ast.ControlFlow.Disallowed.{
  errors_node, errors_nodes, errors_block, errors_stmts, errors_stmt, jump_error, in_while,
}
use mathlib.Core.Bool.{false≢true}
use bpftrace.Prelude.{ℕ, ◌+◌, ◌≡◌, refl, sym, ap, ◌∙◌, inl, inr, Bool, true, false, arith}
use bpftrace.Ast.ControlFlow.Runs.{
  RunsNode, Ending, jumps, falls, RunsStmt, RunsNodes, RunsBlock, RunsStmts,
}
use bpftrace.Ast.ControlFlow.{Jumps, wanted, only_return}
use bpftrace.Ast.ControlFlow.Sound.{not_falls}

abbrev pub all_jumps : Jumps
all_jumps = record { on_return = true; on_continue = true; on_break = true }

-- No jump leaves a place that the check does not visit: the condition of a loop, or the value of a
-- jump.
abbrev mutual
  CalmNode : Node → Type 0
  CalmNode (leaf n) = Unit
  CalmNode no_expr = Unit
  CalmNode (single e) = CalmNode e
  CalmNode (unevaluated e) = Unit
  CalmNode (cast_expr t e) = CalmNode e
  CalmNode (binop op a b) = CalmNode a × CalmNode b
  CalmNode (array_access a b) = CalmNode a × CalmNode b
  CalmNode (arguments es) = CalmNodes es
  CalmNode (if_expr c l r) = CalmNode c × (CalmNode l × CalmNode r)
  CalmNode (block_expr b) = CalmBlock b

  CalmNodes : Nodes → Type 0
  CalmNodes no_nodes = Unit
  CalmNodes (more_nodes e es) = CalmNode e × CalmNodes es

  pub CalmBlock : Block → Type 0
  CalmBlock (braces ss e) = CalmStmts ss × CalmNode e

  CalmStmts : Stmts → Type 0
  CalmStmts no_stmts = Unit
  CalmStmts (more_stmts s ss) = CalmStmt s × CalmStmts ss

  CalmStmt : Stmt → Type 0
  CalmStmt (expr_stmt e) = CalmNode e
  CalmStmt (assign_stmt t e) = CalmNode e
  CalmStmt (assign_map key e) = CalmNode key × CalmNode e
  CalmStmt (declare t) = Unit
  CalmStmt (jump i e) = (j : JumpType) → RunsNode e (jumps j) → ⊥
  CalmStmt (unroll e b) = CalmNode e × CalmBlock b
  CalmStmt (while_loop c b) = ((j : JumpType) → RunsNode c (jumps j) → ⊥) × CalmBlock b
  CalmStmt (for_loop range b) = ((j : JumpType) → RunsNode range (jumps j) → ⊥) × CalmBlock b

left_zero : (a b : ℕ) → a + b ≡ 0 → a ≡ 0
left_zero a b h = omega (arith, h)

right_zero : (a b : ℕ) → a + b ≡ 0 → b ≡ 0
right_zero a b h = omega (arith, h)

no_falls : {X : Type 0} {j : JumpType} → jumps j ≡ falls → X
no_falls h = absurd (not_falls (sym h))

jump_of : JumpType → Ending → JumpType
jump_of d falls = d
jump_of d (jumps j) = j

same_jump : {i j : JumpType} → jumps i ≡ jumps j → i ≡ j
unfolding jump_of
same_jump {i} h = ap (jump_of i) h

wanted_error : (b : Bool) → b ≡ true → jump_error b ≡ 0 → ⊥
wanted_error true w h = absurd (omega (arith, h))
wanted_error false w h = false≢true w

mutual
  unfolding errors_node

  node_escapes :
      (ts : Jumps) (j : JumpType) (e : Node)
      → wanted j ts ≡ true
      → errors_node ts e ≡ 0
      → CalmNode e
      → RunsNode e (jumps j)
      → ⊥
  node_escapes ts j (leaf n) w h c r = no_falls r
  node_escapes ts j no_expr w h c r = no_falls r
  node_escapes ts j (single e) w h c r = node_escapes ts j e w h c r
  node_escapes ts j (unevaluated e) w h c r = no_falls r
  node_escapes ts j (cast_expr t e) w h c r = node_escapes ts j e w (right_zero _ _ h) c r
  node_escapes ts j (binop op a b) w h c (inl (inl (k, r))) =
      node_escapes ts j a w (left_zero _ _ h) c.0 r
  node_escapes ts j (binop op a b) w h c (inl (inr (f, r))) =
      node_escapes ts j b w (right_zero _ _ h) c.1 r
  node_escapes ts j (binop op a b) w h c (inr (l, f, r)) = no_falls r
  node_escapes ts j (array_access a b) w h c (inl (k, r)) =
      node_escapes ts j a w (right_zero _ _ h) c.0 r
  node_escapes ts j (array_access a b) w h c (inr (f, r)) =
      node_escapes ts j b w (left_zero _ _ h) c.1 r
  node_escapes ts j (arguments es) w h c r = nodes_escape ts j es w h c r
  node_escapes ts j (if_expr d l r) w h c (inl (k, t)) =
      node_escapes ts j d w (left_zero _ _ h) c.0 t
  node_escapes ts j (if_expr d l r) w h c (inr (f, inl t)) =
      node_escapes ts j l w (left_zero _ _ (right_zero _ _ h)) c.1.0 t
  node_escapes ts j (if_expr d l r) w h c (inr (f, inr t)) =
      node_escapes ts j r w (right_zero _ _ (right_zero _ _ h)) c.1.1 t
  node_escapes ts j (block_expr b) w h c r = block_escapes ts j b w h c r

  nodes_escape :
      (ts : Jumps) (j : JumpType) (es : Nodes)
      → wanted j ts ≡ true
      → errors_nodes ts es ≡ 0
      → CalmNodes es
      → RunsNodes es (jumps j)
      → ⊥
  nodes_escape ts j no_nodes w h c r = no_falls r
  nodes_escape ts j (more_nodes e es) w h c (inl (k, r)) =
      node_escapes ts j e w (left_zero _ _ h) c.0 r
  nodes_escape ts j (more_nodes e es) w h c (inr (f, r)) =
      nodes_escape ts j es w (right_zero _ _ h) c.1 r

  block_escapes :
      (ts : Jumps) (j : JumpType) (b : Block)
      → wanted j ts ≡ true
      → errors_block ts b ≡ 0
      → CalmBlock b
      → RunsBlock b (jumps j)
      → ⊥
  block_escapes ts j (braces ss e) w h c (inl (k, r)) =
      stmts_escape ts j ss w (left_zero _ _ h) c.0 r
  block_escapes ts j (braces ss e) w h c (inr (f, r)) =
      node_escapes ts j e w (right_zero _ _ h) c.1 r

  stmts_escape :
      (ts : Jumps) (j : JumpType) (ss : Stmts)
      → wanted j ts ≡ true
      → errors_stmts ts ss ≡ 0
      → CalmStmts ss
      → RunsStmts ss (jumps j)
      → ⊥
  stmts_escape ts j no_stmts w h c r = no_falls r
  stmts_escape ts j (more_stmts s ss) w h c (inl (k, r)) =
      stmt_escapes ts j s w (left_zero _ _ h) c.0 r
  stmts_escape ts j (more_stmts s ss) w h c (inr (f, r)) =
      stmts_escape ts j ss w (right_zero _ _ h) c.1 r

  stmt_escapes :
      (ts : Jumps) (j : JumpType) (s : Stmt)
      → wanted j ts ≡ true
      → errors_stmt ts s ≡ 0
      → CalmStmt s
      → RunsStmt s (jumps j)
      → ⊥
  stmt_escapes ts j (expr_stmt e) w h c r = node_escapes ts j e w h c r
  stmt_escapes ts j (assign_stmt t e) w h c r = node_escapes ts j e w (right_zero _ _ h) c r
  stmt_escapes ts j (assign_map key e) w h c (inl (k, r)) =
      node_escapes ts j key w (left_zero _ _ h) c.0 r
  stmt_escapes ts j (assign_map key e) w h c (inr (f, r)) =
      node_escapes ts j e w (right_zero _ _ h) c.1 r
  stmt_escapes ts j (declare t) w h c r = no_falls r
  stmt_escapes ts j (jump i e) w h c (inl (k, r)) = c j r
  stmt_escapes ts j (jump i e) w h c (inr (f, r)) =
      wanted_error _ (ap (λ k. wanted k ts) (sym (same_jump r)) ∙ w) h
  stmt_escapes ts j (unroll e b) w h c (inl (k, r)) = node_escapes ts j e w (left_zero _ _ h) c.0 r
  stmt_escapes ts j (unroll e b) w h c (inr (f, r)) =
      block_escapes ts j b w (right_zero _ _ h) c.1 r
  stmt_escapes ts j (while_loop d b) w h c (inl (k, r)) = c.0 j r
  stmt_escapes ts j (while_loop d b) w h c (inr (f, inl r)) = no_falls r
  stmt_escapes ts j (while_loop d b) w h c (inr (f, inr (e, r))) =
      block_escapes (in_while ts) j b
        (ap (λ k. wanted k (in_while ts)) (same_jump e)
          ∙ (ap (λ k. wanted k ts) (sym (same_jump e)) ∙ w))
        h c.1 r
  stmt_escapes ts j (for_loop d b) w h c (inl (k, r)) = c.0 j r
  stmt_escapes ts j (for_loop d b) w h c (inr (f, inl r)) = no_falls r
  stmt_escapes ts j (for_loop d b) w h c (inr (f, inr (e, r))) =
      block_escapes only_return j b (ap (λ k. wanted k only_return) (same_jump e)) h c.1 r

abbrev pub NeverJumps : JumpType → (Ending → Type 0) → Type 0
NeverJumps j A = A (jumps j) → ⊥

-- Where the check adds no error to a block, no run of the block ends in a jump that is disallowed,
-- if no jump leaves the condition of a loop in it, what a loop goes through, or the value of a
-- jump.
pub errors_block-NeverJumps :
    (ts : Jumps) (j : JumpType) (b : Block)
    → wanted j ts ≡ true
    → errors_block ts b ≡ 0
    → CalmBlock b
    → NeverJumps j (RunsBlock b)
errors_block-NeverJumps ts j b w h c r = block_escapes ts j b w h c r

-- The condition of a `while` loop can hold any jump at all: the check of the loop does not depend
-- on it, although the jump leaves the loop.
while_condition_unchecked :
    (ts : Jumps) (j : JumpType) (c d : Node) (b : Block)
    → RunsNode c (jumps j)
    → (errors_stmt ts (while_loop c b) ≡ errors_stmt ts (while_loop d b))
      × RunsStmt (while_loop c b) (jumps j)
unfolding errors_node
while_condition_unchecked ts j c d b r = (refl, inl (tt, r))
