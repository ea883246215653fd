-- ===== src/Ast/PassManager/Order.antt =====
-- The order of the registered passes.
use bpftrace.Prelude.{
  ℕ, zero, suc, ◌<◌, ◌≡◌, refl, sym, ◌⊎◌, inl, inr, Bool, true, false, ◌||◌, none, some, List, [],
  ◌∷◌, ◌++◌, arith, ◌==◌, Bool-cases, length, get_elem?, ap, ◌∙◌, Option, ==_iff, ap₂,
}
use bpftrace.Ast.PassManager.{
  register, all_available, Pass, PassManager, provider, is_registered, add, added,
}
use mathlib.Core.Path.{subst}
use mathlib.Core.Bool.{false≢true}

abbrev pub mem : ℕ → List ℕ → Bool
mem t [] = false
mem t (u ∷ us) = u == t || mem t us

-- The passes of a manager are in order: every registered type is an output of the pass that it is
-- registered for, and every input of a pass is registered for an earlier pass.
pub record InOrder (m : PassManager) : Type 0 where
  pub provided :
      (t i : ℕ)
      → provider t m.registered ≡ some i
      → (p : Pass) × (get_elem? m.passes i ≡ some p) × (mem t p.outputs ≡ true)
  pub available :
      (j t : ℕ) (p : Pass)
      → get_elem? m.passes j ≡ some p
      → mem t p.inputs ≡ true
      → (i : ℕ) × (provider t m.registered ≡ some i) × (i < j)

pub some_same : {A : Type 0} {x y : A} → some x ≡ some y → x ≡ y
some_same h = cc

absurd_none : {A B : Type 0} {x : A} → none ≡ some x → B
absurd_none h = cc

provider_equal :
    (u t : ℕ) (outs : List (ℕ × ℕ)) → (u == t) ≡ true → provider u outs ≡ provider t outs
provider_equal u t outs h = ap (λ n. provider n outs) ((==_iff u t).0 h)

provider-fresh :
    (u t pass_id i : ℕ) (outs : List (ℕ × ℕ))
    → is_registered (provider u outs) ≡ false
    → provider t outs ≡ some i
    → provider t ((u, pass_id) ∷ outs) ≡ some i
provider-fresh u t pass_id i outs e k = elim (Bool-cases (u == t)) [
  | inl same ↦ absurd (false≢true (sym e ∙ ap is_registered (provider_equal u t outs same ∙ k)))
  | inr other ↦ rw other k
]

provider-cons :
    (u t pass_id i : ℕ) (us : List ℕ) (outs : List (ℕ × ℕ))
    → provider t ((u, pass_id) ∷ outs) ≡ some i
    → (provider t outs ≡ some i) ⊎ ((i ≡ pass_id) × (mem t (u ∷ us) ≡ true))
provider-cons u t pass_id i us outs h = elim (Bool-cases (u == t)) [
  | inl same ↦ inr (sym (some_same (rw same at h)), rw same refl)
  | inr other ↦ inl (rw other at h)
]

provider-registered : (o : Option ℕ) → is_registered o ≡ true → (i : ℕ) × (o ≡ some i)
provider-registered none h = cc
provider-registered (some i) h = (i, refl)

register-kept :
    (pass_id : ℕ) (ts : List ℕ) (outs after : List (ℕ × ℕ)) (t i : ℕ)
    → register pass_id ts outs ≡ some after
    → provider t outs ≡ some i
    → provider t after ≡ some i
unfolding register
register-kept pass_id [] outs after t i h k = subst (λ o. provider t o ≡ some i) (some_same h) k
register-kept pass_id (u ∷ us) outs after t i h k =
    elim (Bool-cases (is_registered (provider u outs))) [
      | inl e ↦ absurd_none (rw e at h)
      | inr e ↦
          register-kept pass_id us ((u, pass_id) ∷ outs) after t i (rw e at h)
            (provider-fresh u t pass_id i outs e k)
    ]

register-new :
    (pass_id : ℕ) (ts : List ℕ) (outs after : List (ℕ × ℕ)) (t i : ℕ)
    → register pass_id ts outs ≡ some after
    → provider t after ≡ some i
    → (provider t outs ≡ some i) ⊎ ((i ≡ pass_id) × (mem t ts ≡ true))
unfolding register
register-new pass_id [] outs after t i h k =
    inl (subst (λ o. provider t o ≡ some i) (sym (some_same h)) k)
register-new pass_id (u ∷ us) outs after t i h k =
    elim (Bool-cases (is_registered (provider u outs))) [
      | inl e ↦ absurd_none (rw e at h)
      | inr e ↦ elim (register-new pass_id us ((u, pass_id) ∷ outs) after t i (rw e at h) k) [
        | inl old ↦ provider-cons u t pass_id i us outs old
        | inr (a, b) ↦ inr (a, ground arith)
      ]
    ]

get_elem?-old :
    (ps : List Pass) (p q : Pass) (i : ℕ)
    → get_elem? ps i ≡ some q
    → (get_elem? (ps ++ p ∷ []) i ≡ some q) × (i < length ps)
get_elem?-old [] p q i h = cc
get_elem?-old (r ∷ ps) p q zero h = (h, omega arith)
get_elem?-old (r ∷ ps) p q (suc i) h = let (a, b) = get_elem?-old ps p q i h in (a, omega arith)

get_elem?-last : (ps : List Pass) (p : Pass) → get_elem? (ps ++ p ∷ []) (length ps) ≡ some p
get_elem?-last [] p = refl
get_elem?-last (r ∷ ps) p = get_elem?-last ps p

get_elem?-cases :
    (ps : List Pass) (p q : Pass) (i : ℕ)
    → get_elem? (ps ++ p ∷ []) i ≡ some q
    → (get_elem? ps i ≡ some q) ⊎ ((i ≡ length ps) × (p ≡ q))
get_elem?-cases [] p q zero h = inr (refl, some_same h)
get_elem?-cases [] p q (suc i) h = cc
get_elem?-cases (r ∷ ps) p q zero h = inl h
get_elem?-cases (r ∷ ps) p q (suc i) h = elim (get_elem?-cases ps p q i h) [
  | inl a ↦ inl a
  | inr (a, b) ↦ inr (omega arith, b)
]

all_available-provider :
    (ts : List ℕ) (outs : List (ℕ × ℕ)) (t : ℕ)
    → all_available ts outs ≡ true
    → mem t ts ≡ true
    → (i : ℕ) × (provider t outs ≡ some i)
all_available-provider [] outs t h k = cc
all_available-provider (u ∷ us) outs t h k = elim (Bool-cases (u == t)) [
  | inl same ↦
      provider-registered (provider t outs)
        (ap is_registered (sym (provider_equal u t outs same)) ∙ ground arith)
  | inr other ↦ all_available-provider us outs t (ground arith) (ground arith)
]

added-shape :
    (p : Pass) (m after : PassManager) (r : Option (List (ℕ × ℕ)))
    → added p m r ≡ some after
    → (after.passes ≡ m.passes ++ p ∷ []) × (r ≡ some after.registered)
added-shape p m after none h = cc
added-shape p m after (some outs) h =
    let same : record { passes = m.passes ++ (p ∷ []); registered = outs } ≡ after = some_same h in
    (ap (λ n. n.passes) (sym same), ap (λ n. some n.registered) same)

add-shape :
    (p : Pass) (m after : PassManager)
    → add p m ≡ some after
    → (all_available p.inputs m.registered ≡ true)
      × (after.passes ≡ m.passes ++ p ∷ [])
      × (register (length m.passes) p.outputs m.registered ≡ some after.registered)
unfolding add
add-shape p m after h = elim (Bool-cases (all_available p.inputs m.registered)) [
  | inl e ↦ let (g, r) = added-shape p m after _ (rw e at h) in (e, g, r)
  | inr e ↦ absurd_none (rw e at h)
]

new_provided :
    (p : Pass) (m after : PassManager)
    → InOrder m
    → after.passes ≡ m.passes ++ p ∷ []
    → register (length m.passes) p.outputs m.registered ≡ some after.registered
    → (t i : ℕ) → provider t after.registered ≡ some i
    → (q : Pass) × (get_elem? after.passes i ≡ some q) × (mem t q.outputs ≡ true)
new_provided p m after o grown regs t i k =
    elim (register-new (length m.passes) p.outputs m.registered after.registered t i regs k) [
      | inl old ↦
          let (q, at, has) = o.provided t i old in
          (q, ap (λ ps. get_elem? ps i) grown ∙ (get_elem?-old m.passes p q i at).0, has)
      | inr (here, has) ↦
          (p, ap₂ (λ ps j. get_elem? ps j) grown here ∙ get_elem?-last m.passes p, has)
    ]

new_available :
    (p : Pass) (m after : PassManager)
    → InOrder m
    → all_available p.inputs m.registered ≡ true
    → after.passes ≡ m.passes ++ p ∷ []
    → register (length m.passes) p.outputs m.registered ≡ some after.registered
    → (j t : ℕ) (q : Pass) → get_elem? after.passes j ≡ some q
    → mem t q.inputs ≡ true
    → (i : ℕ) × (provider t after.registered ≡ some i) × (i < j)
new_available p m after o avail grown regs j t q f k =
    let kept =
      λ (i : ℕ). register-kept (length m.passes) p.outputs m.registered after.registered t i regs in
    elim (get_elem?-cases m.passes p q j (ap (λ ps. get_elem? ps j) (sym grown) ∙ f)) [
      | inl old ↦ let (i, at, before) = o.available j t q old k in (i, kept i at, before)
      | inr (last, same) ↦
          let (i, at) =
            all_available-provider p.inputs m.registered t avail
              (subst (λ r. mem t r.inputs ≡ true) (sym same) k) in
          let (r, place, has) = o.provided t i at in
          (i, kept i at, omega (arith, (get_elem?-old m.passes p r i place).1))
    ]

-- `add` keeps the passes in order: where it does not end with a bug report, every registered type
-- is still an output of the pass that it is registered for, and every input of a pass is
-- registered for an earlier pass.
pub add-InOrder :
    (p : Pass) (m after : PassManager) → InOrder m → add p m ≡ some after → InOrder after
add-InOrder p m after o h =
    let (avail, grown, regs) = add-shape p m after h in
    record {
      provided = λ t i k. new_provided p m after o grown regs t i k;
      available = λ j t q f k. new_available p m after o avail grown regs j t q f k;
    }
