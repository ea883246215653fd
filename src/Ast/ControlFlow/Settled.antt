-- ===== src/Ast/ControlFlow/Settled.antt =====
-- Visiting a piece of a script twice is visiting it once.
use bpftrace.Ast.ControlFlow.Again.{
  and_then-After, discard-After, After, then_visit-After, SameBlock, SameStmt, SameNode,
  remake-After, either-After, SameNodes, finish_block-Same, SameWalk, walk_on-Same,
}
use bpftrace.Prelude.{ℕ, zero, suc, ◌≡◌, refl, Bool, true, false, some, if◌then◌else◌}
use bpftrace.Ast.ControlFlow.{
  analyse, Jumps, Stmt, Visited, Block, only_return, visit_node, visit_block, Node, leaf, single,
  unevaluated, cast_expr, binop, array_access, arguments, if_expr, and_then, block_expr, Nodes,
  visit_nodes, more_nodes, braces, Stmts, walk, more_stmts, visit_stmt, expr_stmt, assign_stmt,
  assign_map, jump, unroll, while_loop, for_loop,
}
use mathlib.Core.Path.{subst}
use bpftrace.Ast.Statement.{no_expr, no_nodes, declare, no_stmts}

-- The two branches of a condition.
abbrev SamePair : (Jumps → Stmt → Visited Stmt) → Jumps → Bool → Node × Node → Type 0
SamePair other ts b p =
    and_then (λ x y. (x, y)) p.1 (visit_node other ts p.0) (visit_node other ts p.1) ≡ some (b, p)

-- The body of a `while` loop.
abbrev SameBody : (Jumps → Stmt → Visited Stmt) → Jumps → Bool → Block → Type 0
SameBody other ts b k =
    (if ts.on_return then visit_block other only_return k else some (false, k)) ≡ some (b, k)

if_body :
    (on_return : Bool) (other : Jumps → Stmt → Visited Stmt) (b : Block) (body : Visited Block)
    → After (SameBlock other only_return) body
    → After
        (λ x k.
          (if on_return then visit_block other only_return k else some (false, k)) ≡ some (x, k))
        (if on_return then body else some (false, b))
if_body true other b body h = h
if_body false other b body h = refl

module _ (other again : Jumps → Stmt → Visited Stmt)
    (settled : (ts : Jumps) (s : Stmt) → After (SameStmt other ts) (again ts s)) where
  mutual
    unfolding visit_node

    node_again : (ts : Jumps) (e : Node) → After (SameNode other ts) (visit_node again ts e)
    node_again ts (leaf n) = refl
    node_again ts no_expr = refl
    node_again ts (single e) =
        remake-After (SameNode other ts) (SameNode other ts) single _ (λ b a p. rw p refl)
          (node_again ts e)
    node_again ts (unevaluated e) =
        remake-After (SameNode other ts) (SameNode other ts) unevaluated _ (λ b a p. rw p refl)
          (node_again ts e)
    node_again ts (cast_expr t e) =
        then_visit-After (SameNode other ts) (SameNode other ts) (SameNode other ts) cast_expr _ _
          (λ x y a b p q. rw p (rw q refl)) (node_again ts t) (node_again ts e)
    node_again ts (binop op a b) =
        either-After (SameNode other ts) (SameNode other ts) (SameNode other ts) (binop op) b _ _
          (λ x p. rw p refl) (λ x t y p q. rw p (rw q refl)) (node_again ts a) (node_again ts b)
    node_again ts (array_access a b) =
        either-After (SameNode other ts) (SameNode other ts) (SameNode other ts) array_access b _ _
          (λ x p. rw p refl) (λ x t y p q. rw p (rw q refl)) (node_again ts a) (node_again ts b)
    node_again ts (arguments es) =
        remake-After (SameNodes other ts) (SameNode other ts) arguments _ (λ b a p. rw p refl)
          (nodes_again ts es)
    node_again ts (if_expr c l r) =
        either-After (SameNode other ts) (SamePair other ts) (SameNode other ts)
          (λ x (p : Node × Node). if_expr x p.0 p.1) (l, r) _ _ (λ x p. rw p refl)
          (λ x t y p q. rw p (rw q refl)) (node_again ts c)
          (and_then-After (SameNode other ts) (SameNode other ts) (SamePair other ts)
            (λ x y. (x, y)) r _ _ (λ x p. rw p refl) (λ x t y p q. rw p (rw q refl))
            (node_again ts l) (node_again ts r))
    node_again ts (block_expr b) =
        remake-After (SameBlock other ts) (SameNode other ts) block_expr _ (λ b a p. rw p refl)
          (block_again ts b)

    nodes_again : (ts : Jumps) (es : Nodes) → After (SameNodes other ts) (visit_nodes again ts es)
    nodes_again ts no_nodes = refl
    nodes_again ts (more_nodes e es) =
        discard-After (SameNode other ts) (SameNodes other ts) (SameNodes other ts) more_nodes _ _
          (λ x y a b p q. rw p (rw q refl)) (node_again ts e) (nodes_again ts es)

    block_again : (ts : Jumps) (b : Block) → After (SameBlock other ts) (visit_block again ts b)
    block_again ts (braces ss e) =
        finish_block-Same other ts (again ts) e _ _ (settled ts) (node_again ts e)
          (walk_again ts ss)

    pub walk_again : (ts : Jumps) (ss : Stmts) → SameWalk other ts (walk again ts ss)
    walk_again ts no_stmts = tt
    walk_again ts (more_stmts s ss) =
        walk_on-Same other ts ss _ _ (stmt_again ts s) (walk_again ts ss)

    stmt_again : (ts : Jumps) (s : Stmt) → After (SameStmt other ts) (visit_stmt again ts s)
    stmt_again ts (expr_stmt e) =
        remake-After (SameNode other ts) (SameStmt other ts) expr_stmt _ (λ b a p. rw p refl)
          (node_again ts e)
    stmt_again ts (assign_stmt t e) =
        then_visit-After (SameNode other ts) (SameNode other ts) (SameStmt other ts) assign_stmt _ _
          (λ x y a b p q. rw p (rw q refl)) (node_again ts t) (node_again ts e)
    stmt_again ts (assign_map key e) =
        either-After (SameNode other ts) (SameNode other ts) (SameStmt other ts) assign_map e _ _
          (λ x p. rw p refl) (λ x t y p q. rw p (rw q refl)) (node_again ts key) (node_again ts e)
    stmt_again ts (declare t) =
        then_visit-After (SameNode other ts) (λ b u. b ≡ false) (SameStmt other ts) _ _ _
          (λ x y a b p q. rw p (rw q refl)) (node_again ts t) refl
    stmt_again ts (jump j e) = refl
    stmt_again ts (unroll e b) =
        either-After (SameNode other ts) (SameBlock other ts) (SameStmt other ts) unroll b _ _
          (λ x p. rw p refl) (λ x t y p q. rw p (rw q refl)) (node_again ts e) (block_again ts b)
    stmt_again ts (while_loop c b) =
        either-After (SameNode other ts) (SameBody other ts) (SameStmt other ts) while_loop b _ _
          (λ x p. rw p refl) (λ x t y p q. rw p (rw q refl)) (node_again ts c)
          (if_body ts.on_return other b _ (block_again only_return b))
    stmt_again ts (for_loop range b) =
        remake-After (SameNode other ts) (SameStmt other ts) (λ r. for_loop r b) _
          (λ x a p. rw p refl) (node_again ts range)

pub analyse-settled :
    (n : ℕ) (other : Jumps → Stmt → Visited Stmt) (ts : Jumps) (s : Stmt)
    → After (SameStmt other ts) (analyse n ts s)
unfolding analyse
analyse-settled zero other ts s = tt
analyse-settled (suc n) other ts s = stmt_again other (analyse n) (analyse-settled n other) ts s

-- A statement that has been visited is left as it is by a second visit, which gives the same
-- answer, and has nothing left to rewrite: one unit of fuel is enough for it.
pub analyse-again :
    (n m : ℕ) (ts : Jumps) (s : Stmt) {b : Bool} {after : Stmt}
    → analyse n ts s ≡ some (b, after)
    → analyse (suc m) ts after ≡ some (b, after)
unfolding analyse
analyse-again n m ts s {b} {after} h =
    subst (After (SameStmt (analyse m) ts)) h (analyse-settled n (analyse m) ts s)
