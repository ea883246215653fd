-- ===== src/Ast/AttachPoint/Check/Once.antt =====
-- What a program may have only once.
use bpftrace.Prelude.{
  ℕ, ◌+◌, ◌≤◌, ◌≡◌, refl, inl, inr, Bool, true, false, not, List, [], ◌∷◌, ◌++◌, arith, Bool-cases,
  Bytes, codes, text_eq, text_eq_sound, if◌then◌else◌, sym, ◌∙◌,
}
use bpftrace.Ast.AttachPoint.{AttachPoint}
use bpftrace.Ast.AttachPoint.Check.{
  Provider, check_as, provider_of, begin_probe, end_probe, require, CheckHost, test_probe, Checker,
  repeated, check_attach_point, is_one_of, check_all, no_probes,
}
use bpftrace.Ast.AttachPoint.Rules.{CheckError}
use mathlib.Core.Bool.{false≢true}

append_empty : (l m : List CheckError) → l ++ m ≡ [] → (l ≡ []) × (m ≡ [])
append_empty [] m h = (refl, h)
append_empty (e ∷ l) m h = cc

require_holds : (b : Bool) (e : CheckError) → require b e ≡ [] → b ≡ true
require_holds true e h = refl
require_holds false e h = cc

abbrev flag : Bool → ℕ
flag true = 1
flag false = 0

-- The attach points with a provider.
abbrev pub count_provider : Bytes → List AttachPoint → ℕ
count_provider p [] = 0
count_provider p (a ∷ rest) = flag (text_eq a.provider p) + count_provider p rest

abbrev is_begin : Provider → ℕ
is_begin begin_probe = 1
is_begin _ = 0

abbrev is_end : Provider → ℕ
is_end end_probe = 1
is_end _ = 0

fresh : (b : Bool) → not b ≡ true → 1 + flag b ≤ 1
fresh true h = cc
fresh false h = omega arith

begin_step :
    (p : Provider) (h : CheckHost) (s : Checker) (a : AttachPoint)
    → (check_as p h s a).2 ≡ []
    → is_begin p + flag s.has_begin_probe ≤ flag (check_as p h s a).0.has_begin_probe
unfolding check_as
begin_step begin_probe h s a e = fresh _ (require_holds _ repeated (append_empty _ _ e).1)
begin_step _ h s a e = omega arith

begin_counted : (p : Bytes) → flag (text_eq p (codes "begin")) ≤ is_begin (provider_of p)
unfolding provider_of
begin_counted p = elim (Bool-cases (text_eq p (codes "begin"))) [
  | inl t ↦ rw (text_eq_sound p (codes "begin") t) (omega arith)
  | inr f ↦ rw f (omega arith)
]

test_of : (p : Bytes) → provider_of p ≡ test_probe → text_eq p (codes "test") ≡ true
unfolding provider_of
test_of p h = ground arith

end_step :
    (p : Provider) (h : CheckHost) (s : Checker) (a : AttachPoint)
    → (check_as p h s a).2 ≡ []
    → is_end p + flag s.has_end_probe ≤ flag (check_as p h s a).0.has_end_probe
unfolding check_as
end_step end_probe h s a e = fresh _ (require_holds _ repeated (append_empty _ _ e).1)
end_step _ h s a e = omega arith

end_counted : (p : Bytes) → flag (text_eq p (codes "end")) ≤ is_end (provider_of p)
unfolding provider_of
end_counted p = elim (Bool-cases (text_eq p (codes "end"))) [
  | inl t ↦ rw (text_eq_sound p (codes "end") t) (omega arith)
  | inr f ↦ rw f (omega arith)
]

flag_bound : (b : Bool) → flag b ≤ 1
flag_bound true = omega arith
flag_bound false = omega arith

-- A flag that each attach point of a provider sets, and finds unset.
module _ (seen : Checker → Bool) (name : Bytes)
    (step : (h : CheckHost) (s : Checker) (a : AttachPoint)
      → (check_attach_point h s a).2 ≡ []
      → flag (text_eq a.provider name) + flag (seen s)
        ≤ flag (seen (check_attach_point h s a).0)) where
  counted_once :
      (h : CheckHost) (s : Checker) (l : List AttachPoint)
      → (check_all h s l).1 ≡ []
      → count_provider name l + flag (seen s) ≤ 1
  unfolding check_all
  counted_once h s [] e = omega (arith, flag_bound (seen s))
  counted_once h s (a ∷ rest) e =
      let (e1, e2) = append_empty (check_attach_point h s a).2 _ e in
      omega (arith, step h s a e1, counted_once h (check_attach_point h s a).0 rest e2)

-- The names of the test probes.
abbrev pub test_targets : List AttachPoint → List Bytes
test_targets [] = []
test_targets (a ∷ rest) =
    if text_eq a.provider (codes "test") then a.target ∷ test_targets rest else test_targets rest

-- No name of a list stands before itself, or among those seen before.
abbrev pub Distinct : List Bytes → List Bytes → Type 0
Distinct seen [] = Unit
Distinct seen (n ∷ l) = (is_one_of n seen ≡ false) × Distinct (n ∷ seen) l

not_seen : (b : Bool) → not b ≡ true → b ≡ false
not_seen true h = cc
not_seen false h = refl

other_test :
    (p : Provider) (h : CheckHost) (s : Checker) (a : AttachPoint)
    → (p ≡ test_probe → ⊥)
    → (check_as p h s a).0.test_names ≡ s.test_names
unfolding check_as
other_test test_probe h s a n = absurd (n refl)
other_test _ h s a n = refl

test_provider : (p : Bytes) → text_eq p (codes "test") ≡ true → provider_of p ≡ test_probe
unfolding provider_of
test_provider p t = rw (text_eq_sound p (codes "test") t) refl

test_accepted :
    (p : Provider) (h : CheckHost) (s : Checker) (a : AttachPoint)
    → p ≡ test_probe
    → (check_as p h s a).2 ≡ []
    → (is_one_of a.target s.test_names ≡ false)
      × ((check_as p h s a).0.test_names ≡ a.target ∷ s.test_names)
unfolding check_as
test_accepted p h s a q e =
    let e' : (check_as test_probe h s a).2 ≡ [] = rw q at e in
    (not_seen _ (require_holds _ repeated (append_empty _ _ e').1), rw q refl)

not_test : (p : Bytes) → text_eq p (codes "test") ≡ false → provider_of p ≡ test_probe → ⊥
not_test p f q = false≢true (sym f ∙ test_of p q)

tests-Distinct :
    (h : CheckHost) (s : Checker) (l : List AttachPoint)
    → (check_all h s l).1 ≡ []
    → Distinct s.test_names (test_targets l)
unfolding check_all check_attach_point
tests-Distinct h s [] e = tt
tests-Distinct h s (a ∷ rest) e =
    let (e1, e2) = append_empty (check_attach_point h s a).2 _ e in
    let more = tests-Distinct h (check_attach_point h s a).0 rest e2 in
    elim (Bool-cases (text_eq a.provider (codes "test"))) [
      | inl t ↦
          let (new, names) =
            test_accepted (provider_of a.provider) h s a (test_provider a.provider t) e1 in
          rw t (new, rw names at more)
      | inr f ↦
          rw f (rw (other_test (provider_of a.provider) h s a (not_test a.provider f)) at more)
    ]

-- A program whose attach points pass the checks without an error has at most one `begin` probe and
-- at most one `end` probe, and no two test probes of one name.
pub check_all-once :
    (h : CheckHost) (l : List AttachPoint)
    → (check_all h no_probes l).1 ≡ []
    → (count_provider (codes "begin") l ≤ 1)
      × (count_provider (codes "end") l ≤ 1)
      × Distinct [] (test_targets l)
unfolding check_attach_point
check_all-once h l e = (
  omega (
    arith,
    counted_once (λ s. s.has_begin_probe) (codes "begin")
        (λ h s a e.
          omega (arith, begin_counted a.provider, begin_step (provider_of a.provider) h s a e))
        h no_probes l e,
  ),
  omega (
    arith,
    counted_once (λ s. s.has_end_probe) (codes "end")
        (λ h s a e.
          omega (arith, end_counted a.provider, end_step (provider_of a.provider) h s a e))
        h no_probes l e,
  ),
  tests-Distinct h no_probes l e,
)
