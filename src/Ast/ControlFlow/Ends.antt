-- ===== src/Ast/ControlFlow/Ends.antt =====
-- Enough fuel for the visits of blocks, where there is enough for their statements.
pub mod All
use bpftrace.Prelude.{
  ℕ, suc, ◌+◌, ◌-◌, ◌≤◌, refl, ap, ◌≢◌, inl, inr, Bool, true, false, not, Option, none, some, arith,
  if◌then◌else◌, Bool-cases,
}
use bpftrace.Ast.ControlFlow.{
  Visited, visit_node, Jumps, remake, either, then_visit, and_then, discard, Stmt, more_stmts, Walk,
  Node, Block, walk, analyse, finish_block, walk_on, passed, visit_stmt, visit_block, append_stmts,
  ended, one_stmt, braces, no_expr, dead_code, with_dead_code, is_empty, put_last, expr_stmt,
  block_expr,
}
use bpftrace.Ast.Statement.{Stmts, no_stmts}
use bpftrace.Ast.ControlFlow.Again.{SameWalk, SameStmt, put_last-Same}

-- What holds with enough fuel.
abbrev pub Bounded : (ℕ → Type 0) → Type 0
Bounded P = (m : ℕ) × ((n : ℕ) → m ≤ n → P n)

pub lift : {P Q : ℕ → Type 0} → Bounded P → ((n : ℕ) → P n → Q n) → Bounded Q
lift (m, p) f = (m, λ n l. f n (p n l))

pub lift_two :
    {P Q R : ℕ → Type 0} → Bounded P → Bounded Q → ((n : ℕ) → P n → Q n → R n) → Bounded R
lift_two (m, p) (k, q) f = (m + k, λ n l. f n (p n (omega (arith, l))) (q n (omega (arith, l))))

pub remake-ends : {A B : Type 0} (f : A → B) (r : Visited A) → r ≢ none → remake f r ≢ none
remake-ends f none h = absurd (h refl)
remake-ends f (some (b, a)) h = λ e. cc

pub either-ends :
    {A B C : Type 0} (f : A → B → C) (right : B) (r : Visited A) (t : Visited B)
    → r ≢ none
    → t ≢ none
    → either f right r t ≢ none
either-ends f right none t h k = absurd (h refl)
either-ends f right (some (true, a)) t h k = λ e. cc
either-ends f right (some (false, a)) t h k = remake-ends (f a) t k

pub then_visit-ends :
    {A B C : Type 0} (f : A → B → C) (r : Visited A) (t : Visited B)
    → r ≢ none
    → t ≢ none
    → then_visit f r t ≢ none
then_visit-ends f none t h k = absurd (h refl)
then_visit-ends f (some (x, a)) t h k = remake-ends (f a) t k

pub and_then-ends :
    {A B C : Type 0} (f : A → B → C) (right : B) (r : Visited A) (t : Visited B)
    → r ≢ none
    → t ≢ none
    → and_then f right r t ≢ none
and_then-ends f right none t h k = absurd (h refl)
and_then-ends f right (some (false, a)) t h k = λ e. cc
and_then-ends f right (some (true, a)) t h k = remake-ends (f a) t k

pub discard-ends :
    {A B C : Type 0} (f : A → B → C) (r : Visited A) (t : Visited B)
    → r ≢ none
    → t ≢ none
    → discard f r t ≢ none
discard-ends f none t h k = absurd (h refl)
discard-ends f (some (x, a)) none h k = absurd (k refl)
discard-ends f (some (x, a)) (some (y, b)) h k = λ e. cc

walk_on-ends :
    (rest : Stmts) (r : Visited Stmt) (w : Option Walk)
    → r ≢ none
    → w ≢ none
    → walk_on rest r w ≢ none
walk_on-ends rest none w h k = absurd (h refl)
walk_on-ends rest (some (true, s)) w h k = λ e. cc
walk_on-ends rest (some (false, s)) none h k = absurd (k refl)
walk_on-ends rest (some (false, s)) (some (passed ss)) h k = λ e. cc
walk_on-ends rest (some (false, s)) (some (ended ss t ts)) h k = λ e. cc

-- A property of each proper tail of a list of statements.
abbrev pub Tails : (Stmts → Type 0) → Stmts → Type 0
Tails Q no_stmts = Unit
Tails Q (more_stmts s ss) = Q ss × Tails Q ss

pub Tails-bounded :
    (Q : Stmts → ℕ → Type 0) (ss : Stmts)
    → Tails (λ r. Bounded (Q r)) ss
    → Bounded (λ n. Tails (λ r. Q r n) ss)
Tails-bounded Q no_stmts h = (0, λ n l. tt)
Tails-bounded Q (more_stmts s ss) h = lift_two h.0 (Tails-bounded Q ss h.1) (λ n a b. (a, b))

-- The statements that a walk has not reached are such a tail.
abbrev LeftOut : (Stmts → Type 0) → Option Walk → Type 0
LeftOut Q none = Unit
LeftOut Q (some (passed ss)) = Unit
LeftOut Q (some (ended ss t rest)) = Q rest

walk_on-LeftOut :
    (Q : Stmts → Type 0) (rest : Stmts) (r : Visited Stmt) (w : Option Walk)
    → Q rest
    → LeftOut Q w
    → LeftOut Q (walk_on rest r w)
walk_on-LeftOut Q rest none w q h = tt
walk_on-LeftOut Q rest (some (true, s)) w q h = q
walk_on-LeftOut Q rest (some (false, s)) none q h = tt
walk_on-LeftOut Q rest (some (false, s)) (some (passed ss)) q h = tt
walk_on-LeftOut Q rest (some (false, s)) (some (ended ss t ts)) q h = h

pub walk-LeftOut :
    (Q : Stmts → Type 0) (again : Jumps → Stmt → Visited Stmt) (ts : Jumps) (ss : Stmts)
    → Tails Q ss
    → LeftOut Q (walk again ts ss)
unfolding visit_node
walk-LeftOut Q again ts no_stmts h = tt
walk-LeftOut Q again ts (more_stmts s ss) h =
    walk_on-LeftOut Q ss (visit_stmt again ts s) (walk again ts ss) h.0
      (walk-LeftOut Q again ts ss h.1)

module _ (ts : Jumps) where
  abbrev pub EndsStmt : Stmt → Type 0
  EndsStmt s = Bounded (λ n. visit_stmt (analyse n) ts s ≢ none)

  abbrev pub EndsNode : Node → Type 0
  EndsNode e = Bounded (λ n. visit_node (analyse n) ts e ≢ none)

  abbrev pub EndsBlock : Block → Type 0
  EndsBlock b = Bounded (λ n. visit_block (analyse n) ts b ≢ none)

  abbrev pub AllEnd : Stmts → Type 0
  AllEnd no_stmts = Unit
  AllEnd (more_stmts s ss) = EndsStmt s × AllEnd ss

  pub AllEnd-append :
      (ss : Stmts) (s : Stmt) → AllEnd ss → EndsStmt s → AllEnd (append_stmts ss (one_stmt s))
  AllEnd-append no_stmts s h e = (e, tt)
  AllEnd-append (more_stmts t ss) s h e = (h.0, AllEnd-append ss s h.1 e)

  pub walk-bounded : (ss : Stmts) → AllEnd ss → Bounded (λ n. walk (analyse n) ts ss ≢ none)
  unfolding visit_node
  walk-bounded no_stmts h = (0, λ n l e. cc)
  walk-bounded (more_stmts s ss) h =
      lift_two h.0 (walk-bounded ss h.1)
        (λ n a b. walk_on-ends ss (visit_stmt (analyse n) ts s) (walk (analyse n) ts ss) a b)

  -- The visit of a statement that holds dead code.
  dead-ends :
      (k : ℕ) (ret : Stmt) (dead : Stmts)
      → SameStmt (analyse k) ts true ret
      → visit_block (analyse k) ts (braces dead no_expr) ≢ none
      → analyse (suc k) ts (with_dead_code ret dead) ≢ none
  unfolding analyse visit_node
  dead-ends k ret dead h e =
      rw (put_last-Same (analyse k) ts no_stmts true ret tt h)
        (remake-ends expr_stmt _ (remake-ends _ _ (remake-ends _ _ (remake-ends block_expr _ e))))

  pub finish-ends :
      (k : ℕ) (e : Node) (v : Visited Node) (w : Option Walk)
      → v ≢ none
      → w ≢ none
      → SameWalk (analyse k) ts w
      → LeftOut (λ r. visit_block (analyse k) ts (braces (dead_code r e) no_expr) ≢ none) w
      → finish_block (analyse (suc k) ts) e v w ≢ none
  unfolding finish_block
  finish-ends k e v none h g s l = absurd (g refl)
  finish-ends k e v (some (passed ss)) h g s l = remake-ends (braces ss) v h
  finish-ends k e v (some (ended ss ret rest)) h g s l =
      elim (Bool-cases (is_empty (dead_code rest e))) [
        | inl t ↦ rw t (λ p. cc)
        | inr f ↦ rw f (remake-ends (put_last ss) _ (dead-ends k ret (dead_code rest e) s.1 l))
      ]
