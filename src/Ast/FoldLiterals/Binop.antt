-- ===== src/Ast/FoldLiterals/Binop.antt =====
-- src/ast/passes/fold_literals.cpp: what the folder makes of an operator whose operands are folded.
use bpftrace.Ast.Expr.{
  Operator, eq, ne, le, ge, left, right, lt, gt, land, lor, plus, minus, mul, div, mod_op, band,
  bor, bxor, is_comparison_op, Expr, integer, negative_integer, string, boolean,
}
use bpftrace.Ast.FoldLiterals.{
  unsigned, signed, Outcome, result, no_result, undefined, bug, eval_uint64, eval_int64, int64_max,
}
use bpftrace.Prelude.{
  ℕ, Bool, true, false, not, ◌&&◌, ◌||◌, Option, none, some, List, [], ◌∷◌, ◌++◌, ltb, leb, ◌==◌,
  if◌then◌else◌, length, drop, Bytes, text_eq,
}
use bpftrace.Prelude.Int.{ℤ, pos, ltb_ℤ}

-- The messages that are recorded on the node.
pub data Diagnostic : Type 0 where
  flow_error underflow_error illegal_string_operation always_empty_warning : Diagnostic

-- What a visit yields: the expression that replaces the node, if any, with the messages; or a
-- report of a bug, or undefined behaviour.
pub data Folded : Type 0 where
  folded : Option Expr → List Diagnostic → Folded
  reported_bug : Folded
  undefined_behaviour : Folded

abbrev pub yields : Expr → Folded
yields e = folded (some e) []

abbrev pub keeps : Folded
keeps = folded none []

abbrev pub fails : Diagnostic → Folded
fails d = folded none (d ∷ [])

-- `eval_bool`; a tuple is a literal, but no truth value.
unfoldable pub eval_bool : Expr → Option Bool
eval_bool (integer n) = some (not (n == 0))
eval_bool (negative_integer z) = some true
eval_bool (string []) = some false
eval_bool (string (c ∷ s)) = some true
eval_bool (boolean b) = some b
eval_bool _ = none

-- `make_boolean` by the outcome of the comparisons of its operands and by their truth.
unfoldable pub compare_by : Operator → Bool → Bool → Bool → Bool → Option Bool
compare_by eq is_eq is_lt l r = some is_eq
compare_by ne is_eq is_lt l r = some (not is_eq)
compare_by le is_eq is_lt l r = some (is_lt || is_eq)
compare_by ge is_eq is_lt l r = some (not is_lt)
compare_by lt is_eq is_lt l r = some is_lt
compare_by gt is_eq is_lt l r = some (not (is_lt || is_eq))
compare_by land is_eq is_lt l r = some (l && r)
compare_by lor is_eq is_lt l r = some (l || r)
compare_by _ is_eq is_lt l r = none

abbrev bool_eq : Bool → Bool → Bool
bool_eq true b = b
bool_eq false b = not b

-- The rest of `make_boolean` at `bool`, whose arithmetic is that of 0 and 1.
unfoldable pub boolean_arithmetic : Operator → Bool → Bool → Folded
boolean_arithmetic plus l r = yields (boolean (l || r))
boolean_arithmetic minus l r = yields (boolean (not (bool_eq l r)))
boolean_arithmetic mul l r = yields (boolean (l && r))
boolean_arithmetic div l r = folded (some (boolean (l && r))) (if r then [] else flow_error ∷ [])
boolean_arithmetic mod_op l r = folded (some (boolean false)) (if r then [] else flow_error ∷ [])
boolean_arithmetic band l r = yields (boolean (l && r))
boolean_arithmetic bor l r = yields (boolean (l || r))
boolean_arithmetic bxor l r = yields (boolean (not (bool_eq l r)))
boolean_arithmetic left l r = yields (boolean (not l && r))
boolean_arithmetic right l r = yields (boolean (l && not r))
boolean_arithmetic _ l r = reported_bug

-- `make_boolean` at `bool`.
unfoldable pub make_boolean : Operator → Bool → Bool → Folded
unfolding compare_by boolean_arithmetic
make_boolean op l r = elim (compare_by op (bool_eq l r) (not l && r) l r) [
  | some v ↦ yields (boolean v)
  | none ↦ boolean_arithmetic op l r
]

-- `make_boolean` at `uint64_t`, on the operators for which it is called there.
unfoldable pub make_boolean_uint64 : Operator → ℕ → ℕ → Folded
unfolding compare_by
make_boolean_uint64 op a b = elim (compare_by op (a == b) (ltb a b) (not (a == 0)) (not (b == 0))) [
  | some v ↦ yields (boolean v)
  | none ↦ reported_bug
]

abbrev pub int_eq : ℤ → ℤ → Bool
int_eq a b = not (ltb_ℤ a b || ltb_ℤ b a)

-- The same at `int64_t`.
unfoldable pub make_boolean_int64 : Operator → ℤ → ℤ → Folded
unfolding compare_by
make_boolean_int64 op a b =
    elim (compare_by op (int_eq a b) (ltb_ℤ a b) (not (int_eq a (pos 0)))
      (not (int_eq b (pos 0)))) [ some v ↦ yields (boolean v) | none ↦ reported_bug ]

-- `operator<` of `std::string`.
abbrev pub text_lt : Bytes → Bytes → Bool
text_lt s [] = false
text_lt [] (b ∷ t) = true
text_lt (a ∷ s) (b ∷ t) = ltb a b || (a == b) && text_lt s t

abbrev pub is_empty : Bytes → Bool
is_empty [] = true
is_empty (c ∷ s) = false

-- The `switch` on two strings. In `land` and `lor` the second operand counts when it is empty.
unfoldable pub fold_strings : Operator → Bytes → Bytes → Folded
fold_strings eq s t = yields (boolean (text_eq s t))
fold_strings ne s t = yields (boolean (not (text_eq s t)))
fold_strings le s t = yields (boolean (not (text_lt t s)))
fold_strings ge s t = yields (boolean (not (text_lt s t)))
fold_strings lt s t = yields (boolean (text_lt s t))
fold_strings gt s t = yields (boolean (text_lt t s))
fold_strings land s t = yields (boolean (not (is_empty s) && is_empty t))
fold_strings lor s t = yields (boolean (not (is_empty s) || is_empty t))
fold_strings plus s t = yields (string (s ++ t))
fold_strings _ s t = fails illegal_string_operation

abbrev is_plus : Operator → Bool
is_plus plus = true
is_plus _ = false

abbrev is_logical : Operator → Bool
is_logical land = true
is_logical lor = true
is_logical _ = false

abbrev is_equality : Operator → Bool
is_equality eq = true
is_equality ne = true
is_equality _ = false

abbrev is_eq_op : Operator → Bool
is_eq_op eq = true
is_eq_op _ = false

-- One operand is a string, the other is given: the first part of `visit(Binop &)`.
unfoldable pub fold_string : Operator → Bytes → Expr → Folded
unfolding fold_strings make_boolean
fold_string op s (integer n) =
    if is_plus op
    then if leb (length s) n
      then folded (some (string [])) (always_empty_warning ∷ [])
      else yields (string (drop n s))
    else keeps
fold_string op s (boolean b) = if is_logical op then make_boolean op (not (is_empty s)) b else keeps
fold_string op s (string t) = fold_strings op s t
fold_string op s _ = keeps

-- The literal of a result, `FLOW_ERROR` where there is none.
unfoldable pub make_number : Outcome → Folded
make_number (result (unsigned n)) = yields (integer n)
make_number (result (signed z)) = yields (negative_integer z)
make_number no_result = fails flow_error
make_number undefined = undefined_behaviour
make_number bug = reported_bug

abbrev fold_uint64 : Operator → ℕ → ℕ → Folded
fold_uint64 op a b =
    if is_comparison_op op then make_boolean_uint64 op a b else make_number (eval_uint64 op a b)

abbrev fold_int64 : Operator → ℤ → ℤ → Folded
fold_int64 op a b =
    if is_comparison_op op then make_boolean_int64 op a b else make_number (eval_int64 op a b)

-- Operands of both signs are brought to `int64_t`, where that can hold them.
unfoldable pub fold_integers : Operator → Expr → Expr → Folded
unfolding is_comparison_op make_boolean_uint64 make_boolean_int64
fold_integers op (integer a) (integer b) = fold_uint64 op a b
fold_integers op (negative_integer a) (negative_integer b) = fold_int64 op a b
fold_integers op (integer a) (negative_integer b) =
    if leb a int64_max then fold_int64 op (pos a) b else fails flow_error
fold_integers op (negative_integer a) (integer b) =
    if leb b int64_max then fold_int64 op a (pos b) else fails flow_error
fold_integers op _ _ = keeps

-- One operand is a Boolean, the other is given; `none` goes on with the code that follows.
unfoldable pub fold_boolean : Operator → Bool → Expr → Option Folded
unfolding make_boolean
fold_boolean op b (boolean c) = some (make_boolean op b c)
fold_boolean op b (integer n) =
    if is_logical op then some (make_boolean op b (not (n == 0))) else none
fold_boolean op b (negative_integer z) =
    if is_logical op then some (make_boolean op b true) else none
fold_boolean op b _ = none
