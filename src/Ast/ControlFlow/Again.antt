-- ===== src/Ast/ControlFlow/Again.antt =====
-- What a visit has rewritten is left as it is by further visits.
use bpftrace.Prelude.{◌≡◌, refl, inl, inr, Bool, true, false, Option, none, some, Bool-cases}
use bpftrace.Ast.ControlFlow.{
  Jumps, Visited, remake, either, then_visit, and_then, discard, Stmt, Node, Nodes, Block,
  visit_stmt, Stmts, Walk, visit_node, finish_block, visit_nodes, visit_block, more_stmts, passed,
  walk, append_stmts, put_last, braces, walk_on, ended, one_stmt, is_empty, dead_code,
  with_dead_code,
}
use bpftrace.Ast.Statement.{no_stmts}

-- A property of the answer of a visit and of the node after it, if the visit ends.
abbrev pub After : {A : Type 0} → (Bool → A → Type 0) → Visited A → Type 0
After P none = Unit
After P (some (b, a)) = P b a

pub remake-After :
    {A B : Type 0} (P : Bool → A → Type 0) (Q : Bool → B → Type 0) (f : A → B) (r : Visited A)
    → ((b : Bool) (a : A) → P b a → Q b (f a))
    → After P r
    → After Q (remake f r)
remake-After P Q f none h p = tt
remake-After P Q f (some (b, a)) h p = h b a p

pub either-After :
    {A B C : Type 0} (P : Bool → A → Type 0) (Q : Bool → B → Type 0) (R : Bool → C → Type 0)
    (f : A → B → C) (right : B) (r : Visited A) (t : Visited B)
    → ((a : A) → P true a → R true (f a right))
    → ((a : A) (b : Bool) (c : B) → P false a → Q b c → R b (f a c))
    → After P r
    → After Q t
    → After R (either f right r t)
either-After P Q R f right none t g h p q = tt
either-After P Q R f right (some (true, a)) t g h p q = g a p
either-After P Q R f right (some (false, a)) none g h p q = tt
either-After P Q R f right (some (false, a)) (some (b, c)) g h p q = h a b c p q

pub then_visit-After :
    {A B C : Type 0} (P : Bool → A → Type 0) (Q : Bool → B → Type 0) (R : Bool → C → Type 0)
    (f : A → B → C) (r : Visited A) (t : Visited B)
    → ((x b : Bool) (a : A) (c : B) → P x a → Q b c → R b (f a c))
    → After P r
    → After Q t
    → After R (then_visit f r t)
then_visit-After P Q R f none t h p q = tt
then_visit-After P Q R f (some (x, a)) none h p q = tt
then_visit-After P Q R f (some (x, a)) (some (b, c)) h p q = h x b a c p q

pub and_then-After :
    {A B C : Type 0} (P : Bool → A → Type 0) (Q : Bool → B → Type 0) (R : Bool → C → Type 0)
    (f : A → B → C) (right : B) (r : Visited A) (t : Visited B)
    → ((a : A) → P false a → R false (f a right))
    → ((a : A) (b : Bool) (c : B) → P true a → Q b c → R b (f a c))
    → After P r
    → After Q t
    → After R (and_then f right r t)
and_then-After P Q R f right none t g h p q = tt
and_then-After P Q R f right (some (false, a)) t g h p q = g a p
and_then-After P Q R f right (some (true, a)) none g h p q = tt
and_then-After P Q R f right (some (true, a)) (some (b, c)) g h p q = h a b c p q

pub discard-After :
    {A B C : Type 0} (P : Bool → A → Type 0) (Q : Bool → B → Type 0) (R : Bool → C → Type 0)
    (f : A → B → C) (r : Visited A) (t : Visited B)
    → ((x y : Bool) (a : A) (b : B) → P x a → Q y b → R false (f a b))
    → After P r
    → After Q t
    → After R (discard f r t)
discard-After P Q R f none t h p q = tt
discard-After P Q R f (some (x, a)) none h p q = tt
discard-After P Q R f (some (x, a)) (some (y, b)) h p q = h x y a b p q

-- The visits of another analyser leave a node as it is, with the same answer.
module _ (other : Jumps → Stmt → Visited Stmt) (ts : Jumps) where
  abbrev pub SameNode : Bool → Node → Type 0
  SameNode b e = visit_node other ts e ≡ some (b, e)

  abbrev pub SameNodes : Bool → Nodes → Type 0
  SameNodes b es = visit_nodes other ts es ≡ some (b, es)

  abbrev pub SameBlock : Bool → Block → Type 0
  SameBlock b k = visit_block other ts k ≡ some (b, k)

  abbrev pub SameStmt : Bool → Stmt → Type 0
  SameStmt b s = visit_stmt other ts s ≡ some (b, s)

  -- Statements that do not end the loop over them.
  abbrev Passed : Stmts → Type 0
  Passed no_stmts = Unit
  Passed (more_stmts s ss) = SameStmt false s × Passed ss

  abbrev pub SameWalk : Option Walk → Type 0
  SameWalk none = Unit
  SameWalk (some (passed ss)) = Passed ss
  SameWalk (some (ended ss t rest)) = Passed ss × SameStmt true t

  walk-Passed : (ss : Stmts) → Passed ss → walk other ts ss ≡ some (passed ss)
  unfolding visit_node
  walk-Passed no_stmts h = refl
  walk-Passed (more_stmts s ss) h = rw h.0 (rw (walk-Passed ss h.1) refl)

  walk_to_end :
      (ss : Stmts) (t : Stmt)
      → Passed ss
      → SameStmt true t
      → walk other ts (append_stmts ss (one_stmt t)) ≡ some (ended ss t no_stmts)
  unfolding visit_node
  walk_to_end no_stmts t h e = rw e refl
  walk_to_end (more_stmts s ss) t h e = rw h.0 (rw (walk_to_end ss t h.1 e) refl)

  Passed-append :
      (ss : Stmts) (t : Stmt) → Passed ss → SameStmt false t → Passed (append_stmts ss (one_stmt t))
  Passed-append no_stmts t h e = (e, tt)
  Passed-append (more_stmts s ss) t h e = (h.0, Passed-append ss t h.1 e)

  pub put_last-Same :
      (ss : Stmts) (b : Bool) (t : Stmt) → Passed ss → SameStmt b t → SameBlock b (put_last ss t)
  unfolding visit_node finish_block
  put_last-Same ss true t h e = rw (walk_to_end ss t h e) refl
  put_last-Same ss false t h e =
      rw (walk-Passed (append_stmts ss (one_stmt t)) (Passed-append ss t h e)) refl

  braces-Same :
      (ss : Stmts) (b : Bool) (e : Node) → Passed ss → SameNode b e → SameBlock b (braces ss e)
  unfolding visit_node finish_block
  braces-Same ss b e h p = rw (walk-Passed ss h) (rw p refl)

  pub walk_on-Same :
      (rest : Stmts) (r : Visited Stmt) (w : Option Walk)
      → After SameStmt r
      → SameWalk w
      → SameWalk (walk_on rest r w)
  walk_on-Same rest none w h k = tt
  walk_on-Same rest (some (true, s)) w h k = (tt, h)
  walk_on-Same rest (some (false, s)) none h k = tt
  walk_on-Same rest (some (false, s)) (some (passed ss)) h k = (h, k)
  walk_on-Same rest (some (false, s)) (some (ended ss t more)) h k = ((h, k.0), k.1)

  pub finish_block-Same :
      (again : Stmt → Visited Stmt) (e : Node) (v : Visited Node) (w : Option Walk)
      → ((s : Stmt) → After SameStmt (again s))
      → After SameNode v
      → SameWalk w
      → After SameBlock (finish_block again e v w)
  unfolding finish_block
  finish_block-Same again e v none g p k = tt
  finish_block-Same again e v (some (passed ss)) g p k =
      remake-After SameNode SameBlock (braces ss) v (λ b a q. braces-Same ss b a k q) p
  finish_block-Same again e v (some (ended ss ret rest)) g p k =
      elim (Bool-cases (is_empty (dead_code rest e))) [
        | inl t ↦ rw t (put_last-Same ss true ret k.0 k.1)
        | inr f ↦ rw f (
            remake-After SameStmt SameBlock (put_last ss) _ (λ b a q. put_last-Same ss b a k.0 q)
              (g (with_dead_code ret (dead_code rest e))))
      ]
