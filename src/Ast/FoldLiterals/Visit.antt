-- ===== src/Ast/FoldLiterals/Visit.antt =====
-- src/ast/passes/fold_literals.cpp: the visits of binary and unary operators, conditionals, casts
-- and positional parameters, after their operands are folded.
use bpftrace.Ast.Expr.{
  Operator, eq, ne, minus, lnot, bnot, Expr, Exprs, integer, negative_integer, string, boolean,
  tuple, runtime, end, elem, is_literal,
}
use bpftrace.Ast.FoldLiterals.{int64_max, to_bits}
use bpftrace.Ast.FoldLiterals.Binop.{
  underflow_error, Folded, reported_bug, undefined_behaviour, yields, keeps, fails, eval_bool,
  fold_string, fold_boolean, fold_integers, int_eq,
}
use bpftrace.Util.IntParser.{to_uint, to_int, ok, err, value, failed}
use bpftrace.Prelude.{
  ℕ, zero, suc, ◌-◌, ◌%◌, ◌^◌, Bool, true, false, not, ◌&&◌, ◌||◌, Option, none, some, [], ◌∷◌, ltb,
  ◌==◌, if◌then◌else◌, Bytes, text_eq,
}
use bpftrace.Prelude.Int.{ℤ, pos, negsuc}
use bpftrace.Util.IntParser

-- The answer of `compare_tuples`; `unknown` is `nullopt`. `out_of_fuel` belongs to the model only.
pub data Compared : Type 0 where
  answer : Bool → Compared
  unknown : Compared
  out_of_fuel : Compared

abbrev pub size : Exprs → ℕ
size end = 0
size (elem e es) = suc (size es)

-- One round of the loop: `again` compares nested tuples, and `rest` is what the later rounds find.
-- A nested pair of tuples ends the loop with its own answer.
unfoldable pub compare_literals : (Exprs → Exprs → Compared) → Expr → Expr → Compared → Compared
compare_literals again (integer x) (integer y) rest = if x == y then rest else answer false
compare_literals again (negative_integer x) (negative_integer y) rest =
    if int_eq x y then rest else answer false
compare_literals again (string x) (string y) rest = if text_eq x y then rest else answer false
compare_literals again (boolean true) (boolean true) rest = rest
compare_literals again (boolean false) (boolean false) rest = rest
compare_literals again (tuple l) (tuple r) rest = again l r
compare_literals again (runtime k) r rest = rest
compare_literals again _ _ rest = answer false

-- The loop over the elements, each of which is visited first.
unfoldable pub compare_elems : (Exprs → Exprs → Compared) → (Expr → Expr) → Exprs → Exprs → Compared
unfolding compare_literals is_literal
compare_elems again visit (elem a l) (elem b r) =
    let rest = compare_elems again visit l r in
    if is_literal (visit a) && is_literal (visit b)
    then compare_literals again (visit a) (visit b) rest
    else unknown
compare_elems again visit _ _ = answer true

-- `compare_tuples`; each nested call takes one unit of fuel, so the depth of the tuples is enough.
unfoldable pub compare_tuples : ℕ → (Expr → Expr) → Exprs → Exprs → Compared
compare_tuples zero visit l r = out_of_fuel
compare_tuples (suc fuel) visit l r =
    let elements = compare_elems (compare_tuples fuel visit) visit l r in
    if size l == size r then elements else answer false

-- The comparison of two tuples by `==` and `!=`.
unfoldable pub fold_tuples : Operator → Compared → Option Folded
fold_tuples eq (answer same) = some (yields (boolean same))
fold_tuples ne (answer same) = some (yields (boolean (not same)))
fold_tuples eq unknown = some keeps
fold_tuples ne unknown = some keeps
fold_tuples eq out_of_fuel = some keeps
fold_tuples ne out_of_fuel = some keeps
fold_tuples _ same = none

-- The middle of `visit(Binop &)`: Booleans, then tuples, then integers.
unfoldable pub fold_other : ℕ → (Expr → Expr) → Operator → Expr → Expr → Folded
unfolding fold_boolean fold_tuples fold_integers
fold_other fuel visit op (boolean b) r = elim (fold_boolean op b r) [
  | some f ↦ f
  | none ↦ fold_integers op (boolean b) r
]
fold_other fuel visit op l (boolean b) = elim (fold_boolean op b l) [
  | some f ↦ f
  | none ↦ fold_integers op l (boolean b)
]
fold_other fuel visit op (tuple l) (tuple r) =
    elim (fold_tuples op (compare_tuples fuel visit l r)) [ some f ↦ f | none ↦ keeps ]
fold_other fuel visit op l r = fold_integers op l r

-- `visit(Binop &)` once both operands are folded: strings come first, the left one before the
-- right.
unfoldable pub fold_binop : ℕ → (Expr → Expr) → Operator → Expr → Expr → Folded
unfolding fold_string fold_other
fold_binop fuel visit op (string s) r = fold_string op s r
fold_binop fuel visit op l (string s) = fold_string op s l
fold_binop fuel visit op l r = fold_other fuel visit op l r

-- `-n` for an unsigned literal that has a negative counterpart.
unfoldable pub negate_integer : ℕ → Folded
negate_integer zero = yields (integer 0)
negate_integer (suc m) =
    if ltb int64_max m then fails underflow_error else yields (negative_integer (negsuc m))

-- `-(v + 1)`, converted to unsigned, plus one.
unfoldable pub negate_negative : ℤ → Folded
negate_negative (negsuc m) = yields (integer (suc m))
negate_negative (pos m) =
    if m == int64_max then undefined_behaviour else yields (integer ((2 ^ 64 - m) % 2 ^ 64))

-- `visit(Unop &)` once the operand is folded.
unfoldable pub fold_unop : Operator → Expr → Folded
unfolding negate_integer negate_negative
fold_unop bnot (integer n) = yields (integer (2 ^ 64 - 1 - n))
fold_unop lnot (integer n) = yields (boolean (n == 0))
fold_unop minus (integer n) = negate_integer n
fold_unop bnot (negative_integer z) = yields (integer (2 ^ 64 - 1 - to_bits z))
fold_unop lnot (negative_integer z) = yields (boolean (int_eq z (pos 0)))
fold_unop minus (negative_integer z) = negate_negative z
fold_unop lnot (boolean b) = yields (boolean (not b))
fold_unop _ _ = keeps

-- What becomes of a conditional: one of its branches, the same with a Boolean condition, or no
-- change.
pub data IfFolded : Type 0 where
  branch : Expr → IfFolded
  simplified : Bool → IfFolded
  unchanged : IfFolded
  if_bug : IfFolded

-- `visit(IfExpr &)`, with its parts folded. A condition that is marked `comptime` selects a branch
-- of any kind, another one only among literals.
unfoldable pub fold_if : Bool → Expr → Expr → Expr → IfFolded
unfolding is_literal eval_bool
fold_if comptime cond l r =
    if is_literal cond
    then elim (eval_bool cond) [
      | none ↦ if_bug
      | some b ↦
          if comptime || is_literal l && is_literal r
          then branch (if b then l else r)
          else simplified b
    ]
    else unchanged

-- `visit(Cast &)`: a cast of a literal to `bool`.
unfoldable pub fold_bool_cast : Expr → Folded
unfolding is_literal eval_bool
fold_bool_cast e =
    if is_literal e
    then elim (eval_bool e) [ none ↦ reported_bug | some b ↦ yields (boolean b) ]
    else keeps

-- `visit(PositionalParameter &)`: an integer where the text is one, else a string. The flag tells
-- of the warning on a parameter that is missing.
unfoldable pub fold_parameter : Bytes → Expr × Bool
fold_parameter [] = (integer 0, true)
fold_parameter (c ∷ s) =
    if c == b'-'
    then elim (to_int (c ∷ s) 0) [
      | value v ↦ (negative_integer v, false)
      | failed e ↦ (string (c ∷ s), false)
      | IntParser.undefined ↦ (string (c ∷ s), false)
    ]
    else elim (to_uint (c ∷ s) 0) [ ok v ↦ (integer v, false) | err e ↦ (string (c ∷ s), false) ]
