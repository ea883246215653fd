-- ===== src/Ast/FoldLiterals/Tuples.antt =====
-- `compare_tuples` against equality of the tuples.
use bpftrace.Ast.Expr.{
  Expr, Exprs, integer, negative_integer, string, boolean, tuple, runtime, end, elem, is_literal,
  eq, all_literal,
}
use bpftrace.Ast.FoldLiterals.Binop.{int_eq, yields}
use bpftrace.Ast.FoldLiterals.Visit.{
  unknown, out_of_fuel, Compared, answer, compare_literals, compare_elems, compare_tuples,
  fold_binop, size, fold_other,
}
use bpftrace.Prelude.{
  ◌≡◌, refl, ◌↔◌, Bool, true, false, arith, ◌==◌, if◌then◌else◌, text_eq, text_eq_iff, ℕ, suc, ap,
  inl, inr, Bool-cases, ◌∙◌,
}
use bpftrace.Prelude.Int.{ℤ, eq_of_parts}
use mathlib.Core.Bool.{false≢true}

-- A literal that is no tuple.
abbrev pub IsScalar : Expr → Type 0
IsScalar (tuple es) = ⊥
IsScalar (runtime k) = ⊥
IsScalar _ = Unit

abbrev pub AreScalars : Exprs → Type 0
AreScalars end = Unit
AreScalars (elem e es) = IsScalar e × AreScalars es

int_eq_iff : (a b : ℤ) → (int_eq a b ≡ true) ↔ (a ≡ b)
int_eq_iff a b = ground (arith, eq_of_parts a b)

-- The answer that decides `P`.
abbrev pub Decides : Type 0 → Compared → Type 0
Decides P (answer true) = P
Decides P (answer false) = ¬ P
Decides P _ = ⊥

module _ (again : Exprs → Exprs → Compared) where
  compare_scalar :
      (a b : Expr) (rest : Compared)
      → IsScalar a
      → IsScalar b
      → (c : Bool) × (compare_literals again a b rest ≡ (if c then rest else answer false))
        × ((c ≡ true) ↔ (a ≡ b))
  unfolding compare_literals
  compare_scalar (integer x) (integer y) rest ha hb = (x == y, ground arith, ground arith)
  compare_scalar (negative_integer x) (negative_integer y) rest ha hb =
      (int_eq x y, ground arith, ground (arith, int_eq_iff x y))
  compare_scalar (string x) (string y) rest ha hb =
      (text_eq x y, ground arith, ground (arith, text_eq_iff x y))
  compare_scalar (boolean true) (boolean true) rest ha hb = (true, ground arith, ground arith)
  compare_scalar (boolean false) (boolean false) rest ha hb = (true, ground arith, ground arith)
  compare_scalar (tuple l) b rest ha hb = absurd ha
  compare_scalar (runtime l) b rest ha hb = absurd ha
  compare_scalar a (tuple l) rest ha hb = absurd hb
  compare_scalar a (runtime l) rest ha hb = absurd hb
  compare_scalar _ _ rest ha hb = (false, ground arith, ground arith)

is_literal-scalar : (e : Expr) → IsScalar e → is_literal e ≡ true
unfolding is_literal
is_literal-scalar (tuple es) h = absurd h
is_literal-scalar (runtime k) h = absurd h
is_literal-scalar _ h = refl

tail-inj : {a b : Expr} {l r : Exprs} → elem a l ≡ elem b r → (a ≡ b) × (l ≡ r)
tail-inj h = (cc, cc)

-- One round of the decision: the heads agree by `c`, the tails by `rest`.
step-Decides :
    (a b : Expr) (l r : Exprs) (c : Bool) (rest : Compared)
    → (c ≡ true) ↔ (a ≡ b)
    → Decides (l ≡ r) rest
    → Decides (elem a l ≡ elem b r) (if c then rest else answer false)
step-Decides a b l r true (answer true) h d = cc (h.0 refl)
step-Decides a b l r true (answer false) h d = λ e. d (tail-inj e).1
step-Decides a b l r true unknown h d = d
step-Decides a b l r true out_of_fuel h d = d
step-Decides a b l r false rest h d = λ e. false≢true (h.1 (tail-inj e).0)

module _ (again : Exprs → Exprs → Compared) (visit : Expr → Expr)
    (kept : (e : Expr) → IsScalar e → visit e ≡ e) where
  compare_elems-Decides :
      (l r : Exprs)
      → AreScalars l
      → AreScalars r
      → size l ≡ size r
      → Decides (l ≡ r) (compare_elems again visit l r)
  unfolding compare_elems
  compare_elems-Decides end end hl hr e = refl
  compare_elems-Decides end (elem b r) hl hr e = absurd (omega arith)
  compare_elems-Decides (elem a l) end hl hr e = absurd (omega arith)
  compare_elems-Decides (elem a l) (elem b r) hl hr e =
      let ih = compare_elems-Decides l r hl.1 hr.1 (omega arith) in
      let (c, step, agree) = compare_scalar again a b (compare_elems again visit l r) hl.0 hr.0 in
      rw (kept a hl.0, kept b hr.0, is_literal-scalar a hl.0, is_literal-scalar b hr.0, step)
        (step-Decides a b l r c (compare_elems again visit l r) agree ih)

-- Tuples whose elements are literals and no tuples: with any fuel above zero the comparison
-- answers, and rightly.
pub compare_tuples-Decides :
    (fuel : ℕ) (visit : Expr → Expr) (l r : Exprs)
    → ((e : Expr) → IsScalar e → visit e ≡ e)
    → AreScalars l
    → AreScalars r
    → Decides (l ≡ r) (compare_tuples (suc fuel) visit l r)
unfolding compare_tuples
compare_tuples-Decides fuel visit l r kept hl hr = elim (Bool-cases (size l == size r)) [
  | inl same ↦
      rw same
        (compare_elems-Decides (compare_tuples fuel visit) visit kept l r hl hr (ground arith))
  | inr other ↦ rw other (λ e. ground (arith, ap size e))
]

Decides-true : {P : Type 0} (c : Compared) → Decides P c → P → c ≡ answer true
Decides-true (answer true) d p = refl
Decides-true (answer false) d p = absurd (d p)
Decides-true unknown d p = absurd d
Decides-true out_of_fuel d p = absurd d

all_literal-scalars : (es : Exprs) → AreScalars es → all_literal es ≡ true
unfolding all_literal
all_literal-scalars end h = refl
all_literal-scalars (elem e es) h = rw (is_literal-scalar e h.0, all_literal-scalars es h.1)

is_literal-tuple : (es : Exprs) → AreScalars es → is_literal (tuple es) ≡ true
unfolding is_literal
is_literal-tuple es h = all_literal-scalars es h

compare_nested :
    (again : Exprs → Exprs → Compared) (visit : Expr → Expr) (nested l r : Exprs)
    → visit (tuple nested) ≡ tuple nested
    → AreScalars nested
    → again nested nested ≡ answer true
    → compare_elems again visit (elem (tuple nested) l) (elem (tuple nested) r) ≡ answer true
unfolding compare_elems compare_literals
compare_nested again visit nested l r kept scalars h = rw (kept, is_literal-tuple nested scalars) h

compare_tuples_step :
    (fuel : ℕ) (visit : Expr → Expr) (nested l r : Exprs)
    → size l ≡ size r
    → compare_tuples (suc fuel) visit (elem (tuple nested) l) (elem (tuple nested) r)
      ≡ compare_elems
          (compare_tuples fuel visit)
          visit
          (elem (tuple nested) l)
          (elem (tuple nested) r)
unfolding compare_tuples
compare_tuples_step fuel visit nested l r e = ground arith

fold_binop-answer :
    (fuel : ℕ) (visit : Expr → Expr) (b : Bool) (l r : Exprs)
    → compare_tuples fuel visit l r ≡ answer b
    → fold_binop fuel visit eq (tuple l) (tuple r) ≡ yields (boolean b)
unfolding fold_binop
fold_binop-answer fuel visit b l r h = rw (h, fold_other)

-- The comparison stops at the first pair of nested tuples: whatever follows that pair, an equal
-- pair makes the whole tuples equal. So tuples that differ only behind it fold to `true` under
-- `==`.
pub nested_tuple_ends_comparison :
    (fuel : ℕ) (visit : Expr → Expr) (nested l r : Exprs)
    → visit (tuple nested) ≡ tuple nested
    → ((e : Expr) → IsScalar e → visit e ≡ e)
    → AreScalars nested
    → size l ≡ size r
    → fold_binop
        (suc (suc fuel))
        visit
        eq
        (tuple (elem (tuple nested) l))
        (tuple (elem (tuple nested) r))
      ≡ yields (boolean true)
nested_tuple_ends_comparison fuel visit nested l r kept fixes scalars e =
    let inner =
      Decides-true (compare_tuples (suc fuel) visit nested nested)
        (compare_tuples-Decides fuel visit nested nested fixes scalars scalars) refl in
    fold_binop-answer (suc (suc fuel)) visit true (elem (tuple nested) l) (elem (tuple nested) r) (
      compare_tuples_step (suc fuel) visit nested l r e
      ∙ compare_nested (compare_tuples (suc fuel) visit) visit nested l r kept scalars inner)
