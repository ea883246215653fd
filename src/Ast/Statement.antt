-- ===== src/Ast/Statement.antt =====
-- src/ast/ast.h: expressions and statements as far as control can leave them. What holds one expression
-- and does nothing else to control shares a constructor, and so does what holds none; the two ends of a
-- range are `arguments`. Operands that do not run have constructors of their own: those of `sizeof`,
-- `offsetof` and `typeinfo` are `unevaluated`, and a cast, a declaration and an assignment hold what is in
-- their `typeof`, which is `no_expr` if there is none.
use bpftrace.Prelude.{ℕ}
use bpftrace.Ast.Expr.{Operator}

-- `enum class JumpType`.
pub data JumpType : Type 0 where
  return_jump continue_jump break_jump : JumpType

-- `Expression`, `BlockExpr` and `Statement`. A number tells expressions without parts apart.
mutual
  pub data Node : Type 0 where
    leaf : ℕ → Node
    no_expr : Node
    single : Node → Node
    unevaluated : Node → Node
    cast_expr : Node → Node → Node
    binop : Operator → Node → Node → Node
    array_access : Node → Node → Node
    arguments : Nodes → Node
    if_expr : Node → Node → Node → Node
    block_expr : Block → Node

  pub data Nodes : Type 0 where
    no_nodes : Nodes
    more_nodes : Node → Nodes → Nodes

  pub data Block : Type 0 where
    braces : Stmts → Node → Block

  pub data Stmt : Type 0 where
    expr_stmt : Node → Stmt
    assign_stmt : Node → Node → Stmt
    assign_map : Node → Node → Stmt
    declare : Node → Stmt
    jump : JumpType → Node → Stmt
    unroll : Node → Block → Stmt
    while_loop : Node → Block → Stmt
    for_loop : Node → Block → Stmt

  pub data Stmts : Type 0 where
    no_stmts : Stmts
    more_stmts : Stmt → Stmts → Stmts

abbrev pub append_stmts : Stmts → Stmts → Stmts
append_stmts no_stmts ts = ts
append_stmts (more_stmts s ss) ts = more_stmts s (append_stmts ss ts)

abbrev pub one_stmt : Stmt → Stmts
one_stmt s = more_stmts s no_stmts
