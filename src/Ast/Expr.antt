-- ===== src/Ast/Expr.antt =====
-- src/ast/ast.h and ast/ast.cpp: operators, and the expressions that the literal folder tells
-- apart.
use bpftrace.Prelude.{ℕ, Bool, true, false, ◌&&◌, Bytes}
use bpftrace.Prelude.Int.{ℤ}

-- `enum class Operator`.
pub data Operator : Type 0 where
  assign eq ne le ge left right lt gt land lor : Operator
  plus pre_increment pre_decrement post_increment post_decrement minus mul div mod_op : Operator
  band bor bxor lnot bnot : Operator

-- `is_comparison_op`.
unfoldable pub is_comparison_op : Operator → Bool
is_comparison_op eq = true
is_comparison_op ne = true
is_comparison_op le = true
is_comparison_op ge = true
is_comparison_op lt = true
is_comparison_op gt = true
is_comparison_op land = true
is_comparison_op lor = true
is_comparison_op _ = false

-- `Expression`: the literals and tuples. `runtime` stands for every expression that is evaluated
-- when the script runs; the number tells such expressions apart.
mutual
  pub data Expr : Type 0 where
    integer : ℕ → Expr
    negative_integer : ℤ → Expr
    string : Bytes → Expr
    boolean : Bool → Expr
    tuple : Exprs → Expr
    runtime : ℕ → Expr

  pub data Exprs : Type 0 where
    end : Exprs
    elem : Expr → Exprs → Exprs

-- `Expression::is_literal`.
unfoldable mutual
  pub is_literal : Expr → Bool
  is_literal (integer n) = true
  is_literal (negative_integer z) = true
  is_literal (string s) = true
  is_literal (boolean b) = true
  is_literal (tuple es) = all_literal es
  is_literal (runtime k) = false

  pub all_literal : Exprs → Bool
  all_literal end = true
  all_literal (elem e es) = is_literal e && all_literal es
