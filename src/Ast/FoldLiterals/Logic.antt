-- ===== src/Ast/FoldLiterals/Logic.antt =====
-- Comparisons, logical operators and negation on literals.
use bpftrace.Ast.Expr.{
  le, ge, lt, gt, land, lor, plus, minus, bnot, Expr, integer, negative_integer, string, boolean,
  eq, ne,
}
use bpftrace.Ast.FoldLiterals.{int64_max, eval_int64}
use bpftrace.Ast.FoldLiterals.Binop.{yields, eval_bool, make_number, fails, underflow_error, int_eq}
use bpftrace.Ast.FoldLiterals.Visit.{fold_binop, fold_unop}
use bpftrace.Ast.FoldLiterals.Unsigned.{represent, eval_uint64-plus}
use bpftrace.Ast.FoldLiterals.Signed.{plus_int64-exact, IsI64}
use bpftrace.Prelude.{
  ℕ, zero, suc, ◌-◌, ◌^◌, ◌≤◌, ◌<◌, ◌≡◌, refl, ap, Bool, true, false, not, ◌&&◌, ◌||◌, some, ◌∷◌,
  arith, leb, ◌==◌, if◌then◌else◌, Bytes, le→leb, ◌↔◌,
}
use bpftrace.Prelude.Int.{ℤ, pos, negsuc, sub_ℕ, ◌+ℤ◌, ltb_ℤ}

-- Two strings that hold some text are both true, and their conjunction folds to `false`: the code
-- tests whether the second one is empty.
pub land_of_strings :
    (fuel : ℕ) (visit : Expr → Expr) (c d : ℕ) (s t : Bytes)
    → (eval_bool (string (c ∷ s)) ≡ some true)
      × (eval_bool (string (d ∷ t)) ≡ some true)
      × (fold_binop fuel visit land (string (c ∷ s)) (string (d ∷ t)) ≡ yields (boolean false))
unfolding fold_binop eval_bool
land_of_strings fuel visit c d s t = (refl, refl, refl)

-- A literal that stands for an integer of `int64_t`.
pub data IsInt64 : Expr → Type 0 where
  nonnegative : {n : ℕ} → n ≤ int64_max → IsInt64 (integer n)
  negative : {m : ℕ} → m ≤ int64_max → IsInt64 (negative_integer (negsuc m))

abbrev pub int_value : Expr → ℤ
int_value (integer n) = pos n
int_value (negative_integer z) = z
int_value _ = pos 0

abbrev pub leb_ℤ : ℤ → ℤ → Bool
leb_ℤ a b = not (ltb_ℤ b a)

int_eq_iff : (a b : ℤ) → (int_eq a b ≡ true) ↔ (a ≡ b)
int_eq_iff (pos a) (pos b) = ground arith
int_eq_iff (pos a) (negsuc b) = ground arith
int_eq_iff (negsuc a) (pos b) = ground arith
int_eq_iff (negsuc a) (negsuc b) = ground arith

fold_binop-equality :
    (fuel : ℕ) (visit : Expr → Expr) {l r : Expr}
    → IsInt64 l
    → IsInt64 r
    → (fold_binop fuel visit eq l r ≡ yields (boolean (int_eq (int_value l) (int_value r))))
      × (fold_binop fuel visit ne l r ≡ yields (boolean (not (int_eq (int_value l) (int_value r)))))
unfolding fold_binop
fold_binop-equality fuel visit (nonnegative p) (nonnegative q) = ground arith
fold_binop-equality fuel visit (nonnegative p) (negative q) = ground arith
fold_binop-equality fuel visit (negative p) (nonnegative q) = ground arith
fold_binop-equality fuel visit (negative p) (negative q) = ground arith

fold_binop-order :
    (fuel : ℕ) (visit : Expr → Expr) {l r : Expr}
    → IsInt64 l
    → IsInt64 r
    → (fold_binop fuel visit lt l r ≡ yields (boolean (ltb_ℤ (int_value l) (int_value r))))
      × (fold_binop fuel visit gt l r ≡ yields (boolean (ltb_ℤ (int_value r) (int_value l))))
      × (fold_binop fuel visit le l r ≡ yields (boolean (leb_ℤ (int_value l) (int_value r))))
      × (fold_binop fuel visit ge l r ≡ yields (boolean (leb_ℤ (int_value r) (int_value l))))
unfolding fold_binop
fold_binop-order fuel visit (nonnegative p) (nonnegative q) = ground arith
fold_binop-order fuel visit (nonnegative p) (negative q) = ground arith
fold_binop-order fuel visit (negative p) (nonnegative q) = ground arith
fold_binop-order fuel visit (negative p) (negative q) = ground arith

-- The six comparisons of integer literals in the range of `int64_t`, signed, unsigned or mixed, fold
-- to the comparison of the integers: `==` is true exactly where they are equal, `!=` exactly where
-- they are not.
pub fold_binop-compare :
    (fuel : ℕ) (visit : Expr → Expr) {l r : Expr}
    → IsInt64 l
    → IsInt64 r
    → (fold_binop fuel visit lt l r ≡ yields (boolean (ltb_ℤ (int_value l) (int_value r))))
      × (fold_binop fuel visit gt l r ≡ yields (boolean (ltb_ℤ (int_value r) (int_value l))))
      × (fold_binop fuel visit le l r ≡ yields (boolean (leb_ℤ (int_value l) (int_value r))))
      × (fold_binop fuel visit ge l r ≡ yields (boolean (leb_ℤ (int_value r) (int_value l))))
      × ((b : Bool) × ((b ≡ true) ↔ (int_value l ≡ int_value r))
          × (fold_binop fuel visit eq l r ≡ yields (boolean b))
          × (fold_binop fuel visit ne l r ≡ yields (boolean (not b))))
fold_binop-compare fuel visit {l} {r} p q =
    let (lower, greater, at_most, at_least) = fold_binop-order fuel visit p q in
    let same = int_eq_iff (int_value l) (int_value r) in
    let equal = fold_binop-equality fuel visit p q in
    (
      lower,
      greater,
      at_most,
      at_least,
      (int_eq (int_value l) (int_value r), same, equal.0, equal.1),
    )

eval_int64-plus : (a b : ℤ) → IsI64 a → IsI64 b → eval_int64 plus a b ≡ represent (a +ℤ b)
unfolding eval_int64
eval_int64-plus a b ha hb = plus_int64-exact a b ha hb

-- A sum of integer literals in the range of `int64_t`, signed, unsigned or mixed, folds to the
-- literal of the exact sum, and is an error where no literal holds it.
pub fold_binop-plus :
    (fuel : ℕ) (visit : Expr → Expr) {l r : Expr}
    → IsInt64 l
    → IsInt64 r
    → fold_binop fuel visit plus l r ≡ make_number (represent (int_value l +ℤ int_value r))
unfolding fold_binop
fold_binop-plus fuel visit (nonnegative {n} p) (nonnegative {n = k} q) =
    ap make_number (eval_uint64-plus n k (omega arith) (omega arith))
fold_binop-plus fuel visit (nonnegative {n} p) (negative {m = k} q) =
    rw (le→leb n int64_max p)
      (ap make_number (eval_int64-plus (pos n) (negsuc k) (omega arith) (omega arith)))
fold_binop-plus fuel visit (negative {m} p) (nonnegative {n = k} q) =
    rw (le→leb k int64_max q)
      (ap make_number (eval_int64-plus (negsuc m) (pos k) (omega arith) (omega arith)))
fold_binop-plus fuel visit (negative {m} p) (negative {m = k} q) =
    ap make_number (eval_int64-plus (negsuc m) (negsuc k) (omega arith) (omega arith))

-- A literal with a truth value that is no string, its integer in the range of `int64_t`, and that
-- value.
pub data Truth : Expr → Bool → Type 0 where
  boolean_truth : {b : Bool} → Truth (boolean b) b
  integer_truth : {n : ℕ} → n ≤ int64_max → Truth (integer n) (not (n == 0))
  negative_truth : {m : ℕ} → m ≤ int64_max → Truth (negative_integer (negsuc m)) true

-- On integers and Booleans, in any mixture, `&&` and `||` fold to the connective of the truth
-- values, and those are the values that a condition takes.
fold_binop-logic :
    (fuel : ℕ) (visit : Expr → Expr) {l r : Expr} {p q : Bool}
    → Truth l p
    → Truth r q
    → (fold_binop fuel visit land l r ≡ yields (boolean (p && q)))
      × (fold_binop fuel visit lor l r ≡ yields (boolean (p || q)))
      × (eval_bool l ≡ some p)
      × (eval_bool r ≡ some q)
unfolding fold_binop eval_bool
fold_binop-logic fuel visit boolean_truth boolean_truth = ground arith
fold_binop-logic fuel visit boolean_truth (integer_truth h) = ground arith
fold_binop-logic fuel visit boolean_truth (negative_truth h) = ground arith
fold_binop-logic fuel visit (integer_truth h) boolean_truth = ground arith
fold_binop-logic fuel visit (integer_truth h) (integer_truth k) = ground arith
fold_binop-logic fuel visit (integer_truth h) (negative_truth k) = ground arith
fold_binop-logic fuel visit (negative_truth h) boolean_truth = ground arith
fold_binop-logic fuel visit (negative_truth h) (integer_truth k) = ground arith
fold_binop-logic fuel visit (negative_truth h) (negative_truth k) = ground arith

-- Negation of an unsigned literal: zero stays, what has a negative counterpart becomes it and is
-- brought back by a second negation, and all else is refused.
fold_unop-minus :
    (n : ℕ)
    → (fold_unop minus (integer n) ≡ (
        if n == 0
        then yields (integer 0)
        else if leb n (2 ^ 63)
        then yields (negative_integer (sub_ℕ 0 n))
        else fails underflow_error))
      × (fold_unop minus (negative_integer (negsuc n)) ≡ yields (integer (suc n)))
unfolding fold_unop
fold_unop-minus zero = (refl, refl)
fold_unop-minus (suc n) = (ground arith, refl)

-- The complement is an involution on unsigned literals, and takes `-(n + 1)` to `n`.
pub fold_unop-bnot :
    (n : ℕ)
    → n < 2 ^ 64
    → (fold_unop bnot (integer (2 ^ 64 - 1 - n)) ≡ yields (integer n))
      × (fold_unop bnot (negative_integer (negsuc n)) ≡ yields (integer n))
unfolding fold_unop
fold_unop-bnot n h =
    (ap (λ k. yields (integer k)) (omega arith), ap (λ k. yields (integer k)) (omega arith))
