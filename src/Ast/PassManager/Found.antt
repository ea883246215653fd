-- ===== src/Ast/PassManager/Found.antt =====
-- Passes that are in order find their inputs when they are run.
use bpftrace.Ast.PassManager.{Pass, PassManager, provider}
use bpftrace.Ast.PassManager.Order.{InOrder, mem, some_same}
use bpftrace.Ast.PassManager.Run.{
  Returned, ok, err, Step, done, failed, no_object, foreach, Context, get, put, write, get_all,
  write_all, put_all, finish, run_pass, run_step, context_ok, run,
}
use bpftrace.Prelude.{
  ℕ, ◌≡◌, refl, ◌∙◌, inl, inr, Bool, true, false, none, some, List, [], ◌∷◌, arith, ◌==◌, ==_iff,
  Bool-cases, length, suc, ◌<◌, ap, ◌||◌, Option-cases, get_elem?, ◌+◌, sym, ◌⊎◌, ◌++◌, ltb, ltb→lt,
  zero, length-append,
}
use mathlib.Core.Path.{subst}
use mathlib.Core.Bool.{false≢true}
use mathlib.Core.List.{append-nil, append_assoc}

abbrev has : {S : Type 0} → ℕ → Context S → Bool
has t ctx = elim (get t ctx) [ none ↦ false | some state ↦ true ]

module _ {S : Type 0} where
  has-put_self : (t : ℕ) (state : S) (ctx : Context S) → has t (put t state ctx) ≡ true
  unfolding put get
  has-put_self t state ctx = ground arith

  has-put :
      (u t : ℕ) (state : S) (ctx : Context S) → has u ctx ≡ true → has u (put t state ctx) ≡ true
  unfolding put get
  has-put u t state ctx h = ground (arith, h)

  has-write : (u t : ℕ) (state : S) (ctx : Context S) → has u (write t state ctx) ≡ has u ctx
  unfolding write get
  has-write u t state [] = refl
  has-write u t state ((v, old) ∷ ctx) = ground (arith, has-write u t state ctx)

  has-write_all :
      (u : ℕ) (ts : List ℕ) (states : List S) (ctx : Context S)
      → has u (write_all ts states ctx) ≡ has u ctx
  unfolding write_all
  has-write_all u [] states ctx = refl
  has-write_all u (t ∷ ts) [] ctx = refl
  has-write_all u (t ∷ ts) (state ∷ states) ctx =
      has-write_all u ts states (write t state ctx) ∙ has-write u t state ctx

  has-put_all :
      (u : ℕ) (ts : List ℕ) (states : List S) (ctx : Context S)
      → has u ctx ≡ true
      → has u (put_all ts states ctx) ≡ true
  unfolding put_all
  has-put_all u [] states ctx h = h
  has-put_all u (t ∷ ts) [] ctx h = h
  has-put_all u (t ∷ ts) (state ∷ states) ctx h =
      has-put_all u ts states (put t state ctx) (has-put u t state ctx h)

  has-put_all_new :
      (u : ℕ) (ts : List ℕ) (states : List S) (ctx : Context S)
      → length states ≡ length ts
      → mem u ts ≡ true
      → has u (put_all ts states ctx) ≡ true
  unfolding put_all
  has-put_all_new u [] states ctx n h = cc
  has-put_all_new u (t ∷ ts) [] ctx n h = absurd (omega (arith, n))
  has-put_all_new u (t ∷ ts) (state ∷ states) ctx n h = elim (Bool-cases (t == u)) [
    | inl e ↦
        has-put_all u ts states (put t state ctx) (
          subst (λ v. has v (put t state ctx) ≡ true) ((==_iff t u).0 e) (has-put_self t state ctx))
    | inr e ↦ has-put_all_new u ts states (put t state ctx) (omega (arith, n)) (rw e at h)
  ]

  has-get : (t : ℕ) (ctx : Context S) → has t ctx ≡ true → (state : S) × (get t ctx ≡ some state)
  has-get t ctx h = elim (Option-cases (get t ctx)) [
    | inl e ↦ let h' = rw (e, has) at h in cc
    | inr (state, e) ↦ (state, e)
  ]

  get_all-found :
      (ts : List ℕ) (ctx : Context S)
      → ((t : ℕ) → mem t ts ≡ true → has t ctx ≡ true)
      → (states : List S) × (get_all ts ctx ≡ inl states)
  unfolding get_all
  get_all-found [] ctx h = ([], refl)
  get_all-found (t ∷ ts) ctx h =
      let (state, e) = has-get t ctx (h t (ap (λ b. b || mem t ts) ((==_iff t t).1 refl))) in
      let (states, r) = get_all-found ts ctx (λ u m. h u (ground (arith, m))) in
      (state ∷ states, rw (e, get_all) (rw r refl))

-- Every type that is registered for one of the first passes has a state.
abbrev Present : {S : Type 0} → PassManager → ℕ → Context S → Type 0
Present m j ctx = (t i : ℕ) → provider t m.registered ≡ some i → i < j → has t ctx ≡ true

get_elem?-lt : (ps : List Pass) (i : ℕ) → (q : Pass) × (get_elem? ps i ≡ some q) → i < length ps
get_elem?-lt [] i (q, h) = cc
get_elem?-lt (p ∷ ps) zero h = omega arith
get_elem?-lt (p ∷ ps) (suc i) h = omega (arith, get_elem?-lt ps i h)

get_elem?-middle :
    (before : List Pass) (pass : Pass) (passes : List Pass)
    → get_elem? (before ++ pass ∷ passes) (length before) ≡ some pass
get_elem?-middle [] pass passes = refl
get_elem?-middle (p ∷ before) pass passes = get_elem?-middle before pass passes

add_one : (n : ℕ) → n + 1 ≡ suc n
add_one n = omega arith

module _ {S E : Type 0} (call : Pass → List S → List S × Returned S E) (ast_context : ℕ)
    (diagnostics_ok : S → Bool) where
  -- What a pass returns has a state for each of its outputs.
  abbrev pub ReturnsOutputs : Type 0
  ReturnsOutputs =
      (pass : Pass) (states outputs : List S)
      → (call pass states).1 ≡ ok outputs
      → length outputs ≡ length pass.outputs

  -- What a run promises: no state is missing, and where it ends without diagnostics every registered
  -- type has a state.
  abbrev pub Complete : PassManager → Step (Context S) E → Type 0
  Complete m (done ctx) =
      context_ok call ast_context diagnostics_ok ctx ≡ true
      → (t i : ℕ) → provider t m.registered ≡ some i
      → has t ctx ≡ true
  Complete m (failed e) = Unit {0}
  Complete m (no_object t) = ⊥

  -- The context after a pass, or the reason that there is none.
  abbrev Advances : PassManager → ℕ → Step (Context S) E → Type 0
  Advances m j (done ctx) = Present m j ctx
  Advances m j (failed e) = Unit {0}
  Advances m j (no_object t) = ⊥

  module _ (m : PassManager) (o : InOrder m) (returns : ReturnsOutputs) where
    finish-Advances :
        (j : ℕ) (pass : Pass) (ctx : Context S) (states : List S) (r : List S × Returned S E)
        → get_elem? m.passes j ≡ some pass
        → Present m j ctx
        → ((outputs : List S) → r.1 ≡ ok outputs → length outputs ≡ length pass.outputs)
        → Advances m (suc j) (finish call ast_context diagnostics_ok pass ctx r)
    unfolding finish
    finish-Advances j pass ctx states (left, err e) at here n = tt
    finish-Advances j pass ctx states (left, ok outputs) at here n = λ t i p before.
        let written = write_all pass.inputs left ctx in
        elim (Bool-cases (ltb i j)) [
          | inl earlier ↦
              has-put_all t pass.outputs outputs written
                (has-write_all t pass.inputs left ctx ∙ here t i p (ltb→lt i j earlier))
          | inr now ↦
              let same : i ≡ j = ground (arith, before, now) in
              let (q, place, produced) = o.provided t i p in
              let q_is : q ≡ pass =
                some_same (sym place ∙ ap (λ k. get_elem? m.passes k) same ∙ at) in
              has-put_all_new t pass.outputs outputs written (n outputs refl)
                (subst (λ r. mem t r.outputs ≡ true) q_is produced)
        ]

    run_step-good :
        (pass : Pass) (ctx : Context S)
        → context_ok call ast_context diagnostics_ok ctx ≡ true
        → run_step call ast_context diagnostics_ok pass ctx
          ≡ run_pass call ast_context diagnostics_ok pass ctx
    unfolding run_step
    run_step-good pass ctx good = rw (good, run_step) refl

    run_step-bad :
        (pass : Pass) (ctx : Context S)
        → context_ok call ast_context diagnostics_ok ctx ≡ false
        → run_step call ast_context diagnostics_ok pass ctx ≡ done ctx
    unfolding run_step
    run_step-bad pass ctx bad = rw (bad, run_step) refl

    run_pass-found :
        (pass : Pass) (ctx : Context S) (states : List S)
        → get_all pass.inputs ctx ≡ inl states
        → run_pass call ast_context diagnostics_ok pass ctx
          ≡ finish call ast_context diagnostics_ok pass ctx (call pass states)
    unfolding run_pass
    run_pass-found pass ctx states found = rw (found, run_pass) refl

    run_step-Advances :
        (j : ℕ) (pass : Pass) (ctx : Context S)
        → get_elem? m.passes j ≡ some pass
        → context_ok call ast_context diagnostics_ok ctx ≡ true
        → Present m j ctx
        → Advances m (suc j) (run_step call ast_context diagnostics_ok pass ctx)
    run_step-Advances j pass ctx at good here =
        let (states, found) =
          get_all-found pass.inputs ctx
            (λ t k. let (i, p, before) = o.available j t pass at k in here t i p before) in
        subst (Advances m (suc j))
          (sym (run_step-good pass ctx good ∙ run_pass-found pass ctx states found))
          (finish-Advances j pass ctx states (call pass states) at here
            (λ outputs r. returns pass states outputs r))

    abbrev rest_of : List Pass → Step (Context S) E → Step (Context S) E
    rest_of passes (done ctx) = foreach (run_step call ast_context diagnostics_ok) passes ctx
    rest_of passes (failed e) = failed e
    rest_of passes (no_object t) = no_object t

    foreach-cons :
        (pass : Pass) (passes : List Pass) (ctx : Context S) (r : Step (Context S) E)
        → run_step call ast_context diagnostics_ok pass ctx ≡ r
        → foreach (run_step call ast_context diagnostics_ok) (pass ∷ passes) ctx ≡ rest_of passes r
    unfolding foreach
    foreach-cons pass passes ctx (done ctx') e = rw (e, foreach) refl
    foreach-cons pass passes ctx (failed error) e = rw (e, foreach) refl
    foreach-cons pass passes ctx (no_object t) e = rw (e, foreach) refl

    rest_of-Complete :
        (j : ℕ) (passes : List Pass) (r : Step (Context S) E)
        → Advances m j r
        → ((ctx : Context S)
            → Present m j ctx
            → Complete m (foreach (run_step call ast_context diagnostics_ok) passes ctx))
        → Complete m (rest_of passes r)
    rest_of-Complete j passes (done ctx) a next = next ctx a
    rest_of-Complete j passes (failed e) a next = tt
    rest_of-Complete j passes (no_object t) a next = a

    foreach-Complete :
        (before passes : List Pass) (ctx : Context S)
        → m.passes ≡ before ++ passes
        → Present m (length before) ctx ⊎ (context_ok call ast_context diagnostics_ok ctx ≡ false)
        → Complete m (foreach (run_step call ast_context diagnostics_ok) passes ctx)
    unfolding foreach
    foreach-Complete before [] ctx whole (inl here) = λ good t i p.
        let (q, place, produced) = o.provided t i p in
        here t i p (
          get_elem?-lt before i
            (q, (sym (ap (λ ps. get_elem? ps i) (whole ∙ append-nil before)) ∙ place)))
    foreach-Complete before [] ctx whole (inr bad) = λ good. absurd (false≢true (sym bad ∙ good))
    foreach-Complete before (pass ∷ passes) ctx whole (inr bad) =
        subst (Complete m)
          (sym (foreach-cons pass passes ctx (done ctx) (run_step-bad pass ctx bad)))
          (foreach-Complete (before ++ pass ∷ []) passes ctx
            (whole ∙ sym (append_assoc before (pass ∷ []) passes)) (inr bad))
    foreach-Complete before (pass ∷ passes) ctx whole (inl here) =
        let next = λ (c : Context S) (s : Present m (suc (length before)) c).
          foreach-Complete (before ++ pass ∷ []) passes c
            (whole ∙ sym (append_assoc before (pass ∷ []) passes))
            (inl (
              subst (λ n. Present m n c)
                (sym (length-append before (pass ∷ []) ∙ add_one (length before))) s)) in
        elim (Bool-cases (context_ok call ast_context diagnostics_ok ctx)) [
          | inl good ↦
              let r = run_step call ast_context diagnostics_ok pass ctx in
              subst (Complete m) (sym (foreach-cons pass passes ctx r refl)) (
                rest_of-Complete (suc (length before)) passes r
                  (run_step-Advances (length before) pass ctx
                    (ap (λ ps. get_elem? ps (length before)) whole
                      ∙ get_elem?-middle before pass passes)
                    good here)
                  next)
          | inr bad ↦
              subst (Complete m)
                (sym (foreach-cons pass passes ctx (done ctx) (run_step-bad pass ctx bad)))
                (foreach-Complete (before ++ pass ∷ []) passes ctx
                  (whole ∙ sym (append_assoc before (pass ∷ []) passes)) (inr bad))
        ]

    -- When the passes of a manager that are in order are run, no pass asks for a state that is not
    -- there, if each returns a state for each of its outputs. Where the run ends with no error and
    -- no error diagnostics, every registered type has a state.
    pub run-Complete : Complete m (run call ast_context diagnostics_ok m)
    unfolding run
    run-Complete =
        foreach-Complete [] m.passes [] refl (inl (λ t i p before. absurd (omega (arith, before))))
