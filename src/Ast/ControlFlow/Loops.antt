-- ===== src/Ast/ControlFlow/Loops.antt =====
-- What the analyser says of loops, of `&&` and `||`, and of `sizeof`, whose parts may not run.
use bpftrace.Ast.ControlFlow.Runs.{falls, is_logical, RunsNode, RunsStmt}
use bpftrace.Ast.Statement.{while_loop, binop}
use bpftrace.Prelude.{ℕ, suc, ◌≡◌, refl, inl, inr, true, false, some, if◌then◌else◌, ap, ap₂, ◌∙◌}
use bpftrace.Ast.ControlFlow.{
  visit_node, analyse, Jumps, Node, Block, visit_block, only_return, either, unevaluated, remake,
}
use bpftrace.Ast.Expr.{Operator}

-- Where `return` is asked for, a `while` loop whose body always returns is taken to return itself,
-- although the loop falls through when its condition is false at once.
pub while_returns :
    (n : ℕ) (ts : Jumps) (c : Node) (b : Block) {c' : Node} {b' : Block}
    → ts.on_return ≡ true
    → visit_node (analyse n) ts c ≡ some (false, c')
    → visit_block (analyse n) only_return b ≡ some (true, b')
    → RunsNode c falls
    → (analyse (suc n) ts (while_loop c b) ≡ some (true, while_loop c' b'))
      × RunsStmt (while_loop c b) falls
unfolding analyse visit_node
while_returns n ts c b {c'} {b'} h vc vb r = (
  ap₂ (λ v w. either while_loop b v (if ts.on_return then w else some (false, b))) vc vb
      ∙ ap
          (λ x.
            either while_loop b (some (false, c')) (if x then some (true, b') else some (false, b)))
          h,
  inr (r, inl refl),
)

-- An operand that jumps makes the whole operation jump for the analyser, also the right operand of
-- `&&`, which does not run when the left one is false.
right_operand_returns :
    (n : ℕ) (ts : Jumps) (op : Operator) (a b : Node) {a' b' : Node}
    → is_logical op ≡ true
    → visit_node (analyse n) ts a ≡ some (false, a')
    → visit_node (analyse n) ts b ≡ some (true, b')
    → RunsNode a falls
    → (visit_node (analyse n) ts (binop op a b) ≡ some (true, binop op a' b'))
      × RunsNode (binop op a b) falls
unfolding visit_node
right_operand_returns n ts op a b l va vb r = (ap₂ (either (binop op) b) va vb, inr (l, r, refl))

-- An operand of `sizeof`, `offsetof` or `typeinfo` that jumps makes the whole expression jump for the
-- analyser, although the operand does not run.
operand_returns :
    (n : ℕ) (ts : Jumps) (e : Node) {e' : Node}
    → visit_node (analyse n) ts e ≡ some (true, e')
    → (visit_node (analyse n) ts (unevaluated e) ≡ some (true, unevaluated e'))
      × RunsNode (unevaluated e) falls
unfolding visit_node
operand_returns n ts e h = (ap (remake unevaluated) h, refl)
