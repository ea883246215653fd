-- ===== src/Ast/ControlFlow/Ends/All.antt =====
-- The analyser ends on every statement.
use bpftrace.Ast.ControlFlow.{
  visit_node, visit_nodes, visit_block, visit_stmt, walk, analyse, Jumps, Visited, dead_code,
  is_none_expr, only_return,
}
use bpftrace.Ast.Statement.{
  Node, leaf, no_expr, single, unevaluated, cast_expr, binop, array_access, arguments, if_expr,
  block_expr, Nodes, no_nodes, more_nodes, Block, braces, Stmt, expr_stmt, assign_stmt, assign_map,
  declare, jump, unroll, while_loop, for_loop, Stmts, no_stmts, more_stmts,
}
use bpftrace.Prelude.{
  ℕ, zero, suc, ◌+◌, ◌≤◌, ◌≢◌, inl, inr, Bool, true, false, none, some, arith, if◌then◌else◌,
  Bool-cases,
}
use bpftrace.Ast.ControlFlow.Ends.{
  EndsNode, Bounded, AllEnd, Tails, EndsBlock, finish-ends, EndsStmt, AllEnd-append, lift,
  walk-bounded, remake-ends, Tails-bounded, lift_two, walk-LeftOut, either-ends, then_visit-ends,
  and_then-ends, discard-ends,
}
use bpftrace.Ast.ControlFlow.Settled.{walk_again, analyse-settled}

module _ (ts : Jumps) where
  -- The unreachable statements behind each tail of a block.
  abbrev DeadEnd : Node → Stmts → Type 0
  DeadEnd e ss = Tails (λ r. EndsBlock ts (braces (dead_code r e) no_expr)) ss

  block_at :
      (ss : Stmts) (e : Node) (n : ℕ)
      → (walk : Bounded (λ n. walk (analyse n) ts ss ≢ none)) → (expr : EndsNode ts e)
      → (dead : Bounded
          (λ n. Tails (λ r. visit_block (analyse n) ts (braces (dead_code r e) no_expr) ≢ none) ss))
      → suc (walk.0 + expr.0 + dead.0) ≤ n
      → visit_block (analyse n) ts (braces ss e) ≢ none
  unfolding visit_node
  block_at ss e zero w x d l = absurd (omega (arith, l))
  block_at ss e (suc k) w x d l =
      finish-ends ts k e (visit_node (analyse (suc k)) ts e) (walk (analyse (suc k)) ts ss)
        (x.1 (suc k) (omega (arith, l))) (w.1 (suc k) (omega (arith, l)))
        (walk_again (analyse k) (analyse (suc k)) (analyse-settled (suc k) (analyse k)) ts ss)
        (walk-LeftOut (λ r. visit_block (analyse k) ts (braces (dead_code r e) no_expr) ≢ none)
          (analyse (suc k)) ts ss (d.1 k (omega (arith, l))))

  block_bounded :
      (ss : Stmts) (e : Node)
      → AllEnd ts ss
      → EndsNode ts e
      → DeadEnd e ss
      → EndsBlock ts (braces ss e)
  block_bounded ss e a x d =
      let w = walk-bounded ts ss a in
      let t =
        Tails-bounded (λ r n. visit_block (analyse n) ts (braces (dead_code r e) no_expr) ≢ none) ss
          d in
      (suc (w.0 + x.0 + t.0), λ n l. block_at ss e n w x t l)

  none-ends : EndsNode ts no_expr
  unfolding visit_node
  none-ends = (0, λ n l e. cc)

  -- Blocks without an expression, and their tails.
  plain_blocks : (ss : Stmts) → AllEnd ts ss → EndsBlock ts (braces ss no_expr) × DeadEnd no_expr ss
  plain_blocks no_stmts a = (block_bounded no_stmts no_expr a none-ends tt, tt)
  plain_blocks (more_stmts s ss) a =
      let more = plain_blocks ss a.1 in
      (block_bounded (more_stmts s ss) no_expr a none-ends more, more)

  expr_stmt-ends : (e : Node) → EndsNode ts e → EndsStmt ts (expr_stmt e)
  unfolding visit_node
  expr_stmt-ends e x = lift x (λ n h. remake-ends expr_stmt _ h)

  dead_code-AllEnd :
      (ss : Stmts) (e : Node) → AllEnd ts ss → EndsNode ts e → AllEnd ts (dead_code ss e)
  dead_code-AllEnd ss e a x = elim (Bool-cases (is_none_expr e)) [
    | inl t ↦ rw t a
    | inr f ↦ rw f (AllEnd-append ts ss (expr_stmt e) a (expr_stmt-ends e x))
  ]

  dead_blocks : (ss : Stmts) (e : Node) → AllEnd ts ss → EndsNode ts e → DeadEnd e ss
  dead_blocks no_stmts e a x = tt
  dead_blocks (more_stmts s ss) e a x =
      ((plain_blocks (dead_code ss e) (dead_code-AllEnd ss e a.1 x)).0, dead_blocks ss e a.1 x)

if_ends :
    (b : Bool) (body : Visited Block) (k : Block)
    → body ≢ none
    → (if b then body else some (false, k)) ≢ none
if_ends true body k h = h
if_ends false body k h = λ e. cc

mutual
  unfolding visit_node

  node_ends : (ts : Jumps) (e : Node) → EndsNode ts e
  node_ends ts (leaf n) = (0, λ n l e. cc)
  node_ends ts no_expr = none-ends ts
  node_ends ts (single e) = lift (node_ends ts e) (λ n h. remake-ends single _ h)
  node_ends ts (unevaluated e) = lift (node_ends ts e) (λ n h. remake-ends unevaluated _ h)
  node_ends ts (cast_expr t e) =
      lift_two (node_ends ts t) (node_ends ts e) (λ n h k. then_visit-ends cast_expr _ _ h k)
  node_ends ts (binop op a b) =
      lift_two (node_ends ts a) (node_ends ts b) (λ n h k. either-ends (binop op) b _ _ h k)
  node_ends ts (array_access a b) =
      lift_two (node_ends ts a) (node_ends ts b) (λ n h k. either-ends array_access b _ _ h k)
  node_ends ts (arguments es) = lift (nodes_end ts es) (λ n h. remake-ends arguments _ h)
  node_ends ts (if_expr c l r) =
      lift_two (node_ends ts c)
        (lift_two (node_ends ts l) (node_ends ts r)
          (λ n h k. and_then-ends (λ x y. (x, y)) r _ _ h k))
        (λ n h k. either-ends (λ x (p : Node × Node). if_expr x p.0 p.1) (l, r) _ _ h k)
  node_ends ts (block_expr b) = lift (block_ends ts b) (λ n h. remake-ends block_expr _ h)

  nodes_end : (ts : Jumps) (es : Nodes) → Bounded (λ n. visit_nodes (analyse n) ts es ≢ none)
  nodes_end ts no_nodes = (0, λ n l e. cc)
  nodes_end ts (more_nodes e es) =
      lift_two (node_ends ts e) (nodes_end ts es) (λ n h k. discard-ends more_nodes _ _ h k)

  block_ends : (ts : Jumps) (b : Block) → EndsBlock ts b
  block_ends ts (braces ss e) =
      let a = stmts_end ts ss in
      let x = node_ends ts e in block_bounded ts ss e a x (dead_blocks ts ss e a x)

  stmts_end : (ts : Jumps) (ss : Stmts) → AllEnd ts ss
  stmts_end ts no_stmts = tt
  stmts_end ts (more_stmts s ss) = (stmt_ends ts s, stmts_end ts ss)

  stmt_ends : (ts : Jumps) (s : Stmt) → EndsStmt ts s
  stmt_ends ts (expr_stmt e) = expr_stmt-ends ts e (node_ends ts e)
  stmt_ends ts (assign_stmt t e) =
      lift_two (node_ends ts t) (node_ends ts e) (λ n h k. then_visit-ends assign_stmt _ _ h k)
  stmt_ends ts (assign_map key e) =
      lift_two (node_ends ts key) (node_ends ts e) (λ n h k. either-ends assign_map e _ _ h k)
  stmt_ends ts (declare t) =
      lift (node_ends ts t) (λ n h. then_visit-ends _ _ (some (false, tt)) h (λ e. cc))
  stmt_ends ts (jump j e) = (0, λ n l e. cc)
  stmt_ends ts (unroll e b) =
      lift_two (node_ends ts e) (block_ends ts b) (λ n h k. either-ends unroll b _ _ h k)
  stmt_ends ts (while_loop c b) =
      lift_two (node_ends ts c) (block_ends only_return b)
        (λ n h k. either-ends while_loop b _ _ h (if_ends ts.on_return _ b k))
  stmt_ends ts (for_loop range b) =
      lift (node_ends ts range) (λ n h. remake-ends (λ r. for_loop r b) _ h)

analyse_at :
    (ts : Jumps) (s : Stmt) (m : ℕ)
    → ((n : ℕ) → m ≤ n → visit_stmt (analyse n) ts s ≢ none)
    → (n : ℕ) → suc m ≤ n
    → analyse n ts s ≢ none
unfolding analyse
analyse_at ts s m h zero l = absurd (omega (arith, l))
analyse_at ts s m h (suc n) l = h n (omega (arith, l))

-- The analyser ends on every statement, whichever jumps are asked for: from some fuel on it has an
-- answer.
pub analyse-Bounded : (ts : Jumps) (s : Stmt) → Bounded (λ n. analyse n ts s ≢ none)
analyse-Bounded ts s = let e = stmt_ends ts s in (suc e.0, λ n l. analyse_at ts s e.0 e.1 n l)
