-- ===== src/Ast/FoldLiterals/Tests.antt =====
-- Runs of the folder, and the theorems about it at concrete literals.
use bpftrace.Ast.Expr.{
  le, ge, lt, gt, plus, minus, mul, bnot, Expr, Exprs, integer, negative_integer, string, boolean,
  runtime, end, elem, eq, ne,
}
use bpftrace.Ast.FoldLiterals.{no_result, undefined, eval_uint64, minus_int64, int64_min}
use bpftrace.Ast.FoldLiterals.Binop.{yields, folded, always_empty_warning, make_number}
use bpftrace.Ast.FoldLiterals.Visit.{fold_binop, fold_unop, fold_if, simplified, compare_tuples}
use bpftrace.Ast.FoldLiterals.Unsigned.{represent, eval_uint64-exact}
use bpftrace.Ast.FoldLiterals.Tuples.{Decides, compare_tuples-Decides}
use bpftrace.Ast.FoldLiterals.Logic.{
  nonnegative, negative, fold_binop-compare, fold_binop-plus, fold_unop-bnot,
}
use bpftrace.Prelude.{◌-◌, ◌^◌, ◌≡◌, refl, true, false, some, [], ◌∷◌, arith, codes, ◌↔◌, Bool, not}
use bpftrace.Prelude.Int.{pos, negsuc, ◌+ℤ◌, ◌-ℤ◌, ◌*ℤ◌}

-- A visit that leaves every expression as it is.
abbrev same : Expr → Expr
same e = e

abbrev one_two : Exprs
one_two = elem (integer 1) (elem (string (codes "b")) end)

text_offset :
    fold_binop 1 same plus (string (codes "hello")) (integer 2) ≡ yields (string (codes "llo"))
unfolding fold_binop
text_offset = refl

text_consumed :
    fold_binop 1 same plus (string (codes "hi")) (integer 2)
    ≡ folded (some (string [])) (always_empty_warning ∷ [])
unfolding fold_binop
text_consumed = refl

unsigned_overflow : eval_uint64 plus (2 ^ 64 - 1) 1 ≡ no_result
unfolding eval_uint64
unsigned_overflow = refl

smallest_from_zero : minus_int64 (pos 0) int64_min ≡ undefined
unfolding minus_int64
smallest_from_zero = refl

runtime_condition : fold_if false (integer 7) (runtime 1) (integer 2) ≡ simplified true
unfolding fold_if
runtime_condition = refl

eval_uint64-exact_example :
    (eval_uint64 plus 3 5 ≡ represent (pos 3 +ℤ pos 5))
    × (eval_uint64 minus 3 5 ≡ represent (pos 3 -ℤ pos 5))
    × (eval_uint64 mul 3 5 ≡ represent (pos 3 *ℤ pos 5))
eval_uint64-exact_example = eval_uint64-exact 3 5 (omega arith) (omega arith)

compare_tuples-Decides_example : Decides (one_two ≡ one_two) (compare_tuples 1 same one_two one_two)
compare_tuples-Decides_example =
    compare_tuples-Decides 0 same one_two one_two (λ e h. refl) (tt, (tt, tt)) (tt, (tt, tt))

fold_binop-compare_example :
    (fold_binop 1 same lt (integer 3) (negative_integer (negsuc 4)) ≡ yields (boolean false))
    × (fold_binop 1 same gt (integer 3) (negative_integer (negsuc 4)) ≡ yields (boolean true))
    × (fold_binop 1 same le (integer 3) (negative_integer (negsuc 4)) ≡ yields (boolean false))
    × (fold_binop 1 same ge (integer 3) (negative_integer (negsuc 4)) ≡ yields (boolean true))
    × ((b : Bool) × ((b ≡ true) ↔ (pos 3 ≡ negsuc 4))
        × (fold_binop 1 same eq (integer 3) (negative_integer (negsuc 4)) ≡ yields (boolean b))
        × (fold_binop 1 same ne (integer 3) (negative_integer (negsuc 4))
            ≡ yields (boolean (not b))))
fold_binop-compare_example =
    fold_binop-compare 1 same (nonnegative {n = 3} (omega arith)) (negative {m = 4} (omega arith))

fold_binop-plus_example :
    fold_binop 1 same plus (integer 3) (negative_integer (negsuc 4))
    ≡ make_number (represent (pos 3 +ℤ negsuc 4))
fold_binop-plus_example =
    fold_binop-plus 1 same (nonnegative {n = 3} (omega arith)) (negative {m = 4} (omega arith))

fold_unop-bnot_example :
    (fold_unop bnot (integer (2 ^ 64 - 1 - 5)) ≡ yields (integer 5))
    × (fold_unop bnot (negative_integer (negsuc 5)) ≡ yields (integer 5))
fold_unop-bnot_example = fold_unop-bnot 5 (omega arith)
