-- ===== src/Ast/ControlFlow/Sound.antt =====
-- Where the analyser answers true, control does not fall through.
use bpftrace.Ast.ControlFlow.Runs.{
  falls, Ending, jumps, plain_node, RunsNode, plain_block, RunsBlock, plain_stmts, RunsStmts,
  plain_stmt, RunsStmt,
}
use bpftrace.Ast.Statement.{
  leaf, no_expr, single, unevaluated, cast_expr, binop, array_access, arguments, if_expr,
  block_expr, no_nodes, more_nodes, braces, expr_stmt, assign_map, declare, jump, unroll,
  while_loop, for_loop, no_stmts, more_stmts, assign_stmt,
}
use bpftrace.Prelude.{
  ◌≡◌, refl, ◌⊎◌, inl, inr, true, false, not, none, some, ap, Bool, ◌&&◌, Option, sym, ◌∙◌, ℕ, zero,
  suc,
}
use bpftrace.Ast.ControlFlow.{
  Visited, remake, either, then_visit, and_then, Stmts, finish_block, Jumps, Stmt, Walk, Node,
  visit_node, walk_on, Block, ended, passed, Nodes, visit_nodes, visit_block, walk, visit_stmt,
  discard, JumpType, analyse,
}
use mathlib.Core.Bool.{false≢true}

abbrev pub NeverFalls : (Ending → Type 0) → Type 0
NeverFalls A = A falls → ⊥

no_jump : {X Y : Type 0} → (⊥ × X) ⊎ (X × Y) → X × Y
no_jump (inl (j, a)) = absurd j
no_jump (inr p) = p

remake-true :
    {A B : Type 0} (f : A → B) {b : B} (r : Visited A)
    → remake f r ≡ some (true, b)
    → (a : A) × (r ≡ some (true, a))
remake-true f none h = cc
remake-true f (some (true, a)) h = (a, refl)
remake-true f (some (false, a)) h = cc

then_visit-true :
    {A B C : Type 0} (f : A → B → C) {c : C} (r : Visited A) (t : Visited B)
    → then_visit f r t ≡ some (true, c)
    → (b : B) × (t ≡ some (true, b))
then_visit-true f none t h = cc
then_visit-true f (some (x, a)) t h = remake-true (f a) t h

either-true :
    {A B C : Type 0} (f : A → B → C) (right : B) {c : C} (r : Visited A) (t : Visited B)
    → either f right r t ≡ some (true, c)
    → ((a : A) × (r ≡ some (true, a))) ⊎ ((b : B) × (t ≡ some (true, b)))
either-true f right none t h = cc
either-true f right (some (true, a)) t h = inl (a, refl)
either-true f right (some (false, a)) t h = inr (remake-true (f a) t h)

and_then-true :
    {A B C : Type 0} (f : A → B → C) (right : B) {c : C} (r : Visited A) (t : Visited B)
    → and_then f right r t ≡ some (true, c)
    → ((a : A) × (r ≡ some (true, a))) × ((b : B) × (t ≡ some (true, b)))
and_then-true f right none t h = cc
and_then-true f right (some (false, a)) t h = cc
and_then-true f right (some (true, a)) t h = ((a, refl), remake-true (f a) t h)

walk_on-ended :
    (rest : Stmts) (r : Visited Stmt) (w : Option Walk) {before after : Stmts} {ret : Stmt}
    → walk_on rest r w ≡ some (ended before ret after)
    → ((s : Stmt) × (r ≡ some (true, s))) ⊎ ((ss : Stmts) × (w ≡ some (ended ss ret after)))
walk_on-ended rest none w h = cc
walk_on-ended rest (some (true, s)) w h = inl (s, refl)
walk_on-ended rest (some (false, s)) none h = cc
walk_on-ended rest (some (false, s)) (some (passed ss)) h = cc
walk_on-ended rest (some (false, s)) (some (ended ss t ts)) h = inr (ss, cc)

finish_block-true :
    (again : Stmt → Visited Stmt) (e : Node) (v : Visited Node) (w : Option Walk) {b : Block}
    → finish_block again e v w ≡ some (true, b)
    → ((e' : Node) × (v ≡ some (true, e')))
      ⊎ ((before after : Stmts) × (ret : Stmt) × (w ≡ some (ended before ret after)))
unfolding finish_block
finish_block-true again e v none h = cc
finish_block-true again e v (some (passed ss)) h = inl (remake-true (braces ss) v h)
finish_block-true again e v (some (ended ss ret rest)) h = inr (ss, rest, ret, refl)

fst-true : (a b : Bool) → (a && b) ≡ true → a ≡ true
fst-true true b h = refl
fst-true false b h = cc

snd-true : (a b : Bool) → (a && b) ≡ true → b ≡ true
snd-true true b h = h
snd-true false b h = cc

not-true : {a : Bool} → not a ≡ true → a ≡ true → ⊥
not-true {a = true} h k = false≢true h
not-true {a = false} h k = false≢true k

abbrev answer_of : {A : Type 0} → Visited A → Bool
answer_of none = false
answer_of (some (b, a)) = b

some-false : {A : Type 0} (r : Visited A) {b : A} → answer_of r ≡ false → r ≡ some (true, b) → ⊥
some-false r e h = false≢true (sym e ∙ ap answer_of h)

discard-false :
    {A B C : Type 0} (f : A → B → C) (r : Visited A) (t : Visited B) {c : C}
    → discard f r t ≡ some (true, c)
    → ⊥
discard-false f none t h = cc
discard-false f (some (x, a)) none h = cc
discard-false f (some (x, a)) (some (y, b)) h = some-false _ refl h

is_ended : Option Walk → Bool
is_ended (some (ended ss t ts)) = true
is_ended _ = false

walked :
    {ss before after : Stmts} {ret : Stmt} → some (passed ss) ≡ some (ended before ret after) → ⊥
unfolding is_ended
walked h = false≢true (ap is_ended h)

is_fall : Ending → Bool
is_fall falls = true
is_fall (jumps j) = false

pub not_falls : {j : JumpType} → falls ≡ jumps j → ⊥
unfolding is_fall
not_falls h = false≢true (sym (ap is_fall h))

module _ (again : Jumps → Stmt → Visited Stmt) where
  nodes-false :
      (ts : Jumps) (es : Nodes) {es' : Nodes} → visit_nodes again ts es ≡ some (true, es') → ⊥
  unfolding visit_node
  nodes-false ts no_nodes h = some-false _ refl h
  nodes-false ts (more_nodes e es) h = discard-false more_nodes _ _ h

  mutual
    unfolding visit_node

    node_sound :
        (ts : Jumps) (e : Node) {e' : Node}
        → visit_node again ts e ≡ some (true, e')
        → plain_node e ≡ true
        → NeverFalls (RunsNode e)
    node_sound ts (leaf n) h p r = some-false _ refl h
    node_sound ts no_expr h p r = some-false _ refl h
    node_sound ts (single e) h p r = node_sound ts e (remake-true single _ h).1 p r
    node_sound ts (unevaluated e) h p r = false≢true p
    node_sound ts (cast_expr t e) h p r = node_sound ts e (then_visit-true cast_expr _ _ h).1 p r
    node_sound ts (binop op a b) h p (inr (l, _, _)) = not-true (fst-true _ _ p) l
    node_sound ts (binop op a b) h p (inl r) = elim (either-true (binop op) b _ _ h) [
      | inl (_, t) ↦ node_sound ts a t (fst-true _ _ (snd-true _ _ p)) (no_jump r).0
      | inr (_, t) ↦ node_sound ts b t (snd-true _ _ (snd-true _ _ p)) (no_jump r).1
    ]
    node_sound ts (array_access a b) h p r = elim (either-true array_access b _ _ h) [
      | inl (_, t) ↦ node_sound ts a t (fst-true _ _ p) (no_jump r).0
      | inr (_, t) ↦ node_sound ts b t (snd-true _ _ p) (no_jump r).1
    ]
    node_sound ts (arguments es) h p r = nodes-false ts es (remake-true arguments _ h).1
    node_sound ts (if_expr c l r) h p q = elim (either-true _ _ _ _ h) [
      | inl (_, t) ↦ node_sound ts c t (fst-true _ _ p) (no_jump q).0
      | inr (_, t) ↦
          let ((_, tl), (_, tr)) = and_then-true (λ x y. (x, y)) r _ _ t in
          elim (no_jump q).1 [
            | inl x ↦ node_sound ts l tl (fst-true _ _ (snd-true _ _ p)) x
            | inr y ↦ node_sound ts r tr (snd-true _ _ (snd-true _ _ p)) y
          ]
    ]
    node_sound ts (block_expr b) h p r = block_sound ts b (remake-true block_expr _ h).1 p r

    block_sound :
        (ts : Jumps) (b : Block) {b' : Block}
        → visit_block again ts b ≡ some (true, b')
        → plain_block b ≡ true
        → NeverFalls (RunsBlock b)
    block_sound ts (braces ss e) h p r =
        elim (finish_block-true (again ts) e (visit_node again ts e) (walk again ts ss) h) [
          | inl (_, t) ↦ node_sound ts e t (snd-true _ _ p) (no_jump r).1
          | inr (_, _, _, t) ↦ stmts_sound ts ss t (fst-true _ _ p) (no_jump r).0
        ]

    stmts_sound :
        (ts : Jumps) (ss : Stmts) {before after : Stmts} {ret : Stmt}
        → walk again ts ss ≡ some (ended before ret after)
        → plain_stmts ss ≡ true
        → NeverFalls (RunsStmts ss)
    stmts_sound ts no_stmts h p r = walked h
    stmts_sound ts (more_stmts s ss) h p r = elim (walk_on-ended ss _ _ h) [
      | inl (_, t) ↦ stmt_sound ts s t (fst-true _ _ p) (no_jump r).0
      | inr (_, t) ↦ stmts_sound ts ss t (snd-true _ _ p) (no_jump r).1
    ]

    stmt_sound :
        (ts : Jumps) (s : Stmt) {s' : Stmt}
        → visit_stmt again ts s ≡ some (true, s')
        → plain_stmt s ≡ true
        → NeverFalls (RunsStmt s)
    stmt_sound ts (expr_stmt e) h p r = node_sound ts e (remake-true expr_stmt _ h).1 p r
    stmt_sound ts (assign_stmt t e) h p r =
        node_sound ts e (then_visit-true assign_stmt _ _ h).1 p r
    stmt_sound ts (assign_map key e) h p r = elim (either-true assign_map e _ _ h) [
      | inl (_, t) ↦ node_sound ts key t (fst-true _ _ p) (no_jump r).0
      | inr (_, t) ↦ node_sound ts e t (snd-true _ _ p) (no_jump r).1
    ]
    stmt_sound ts (declare t) h p r = some-false (some (false, tt)) refl (then_visit-true _ _ _ h).1
    stmt_sound ts (jump j e) h p r = not_falls {j = j} (no_jump r).1
    stmt_sound ts (unroll e b) h p r = elim (either-true unroll b _ _ h) [
      | inl (_, t) ↦ node_sound ts e t (fst-true _ _ p) (no_jump r).0
      | inr (_, t) ↦ block_sound ts b t (snd-true _ _ p) (no_jump r).1
    ]
    stmt_sound ts (while_loop c b) h p r = false≢true p
    stmt_sound ts (for_loop range b) h p r =
        node_sound ts range (remake-true (λ e. for_loop e b) _ h).1 p (no_jump r).0

-- Where the analyser answers true for a statement that has no `while` loop, no `&&` or `||`, and no
-- `sizeof`, `offsetof` or `typeinfo` in it, no run of the statement falls through, whatever the values in it and whichever jumps were
-- asked for.
pub analyse-NeverFalls :
    (n : ℕ) (ts : Jumps) (s : Stmt) {after : Stmt}
    → analyse n ts s ≡ some (true, after)
    → plain_stmt s ≡ true
    → NeverFalls (RunsStmt s)
unfolding analyse
analyse-NeverFalls zero ts s h p = cc
analyse-NeverFalls (suc n) ts s h p = stmt_sound (analyse n) ts s h p
