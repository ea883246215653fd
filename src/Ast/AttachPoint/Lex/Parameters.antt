-- ===== src/Ast/AttachPoint/Lex/Parameters.antt =====
-- How often the lexer reads an expanded parameter again.
use bpftrace.Prelude.{
  ℕ, zero, suc, ◌+◌, ◌-◌, ◌≤◌, ◌≡◌, refl, ◌≢◌, Bool, false, some, List, [], ◌∷◌, ◌++◌, arith, ◌==◌,
  if◌then◌else◌, Bytes, Option, true, none,
}
use bpftrace.Ast.AttachPoint.Lex.{
  expand_parameter, lex_text, Action, span_digits, lex_bare, lex_attachpoint, action, Lexed,
  get_param, parameter_digits, is_empty, out_of_fuel, Mode, to_uint, expand, expanded, bare,
  escaped, ok, finish, parameter_value, in_quotes, parts, leave_out, append, end_part, invalid_part,
  Result, err,
}

-- A parameter whose value is its own name is expanded for ever, whatever stands behind it: no fuel
-- is enough.
pub lex_own_parameter :
    (n : ℕ) (params : List Bytes) (raw digits rest found : Bytes) (i : ℕ)
    → parameter_digits raw ≡ (digits, rest)
    → is_empty digits ≡ false
    → to_uint digits 10 ≡ ok i
    → get_param params i ≡ some found
    → found ++ rest ≡ b'$' ∷ raw
    → lex_attachpoint n params (b'$' ∷ raw) ≡ out_of_fuel
unfolding lex_attachpoint lex_bare lex_text action expand_parameter
lex_own_parameter zero params raw digits rest found i s d u g e = refl
lex_own_parameter (suc n) params raw digits rest found i s d u g e =
    rw s (rw d (rw u (rw g (rw e (lex_own_parameter n params raw digits rest found i s d u g e)))))

-- The dollar signs in a text.
unfoldable pub dollars : Bytes → ℕ
dollars [] = 0
dollars (c ∷ s) = if c == b'$' then suc (dollars s) else dollars s

abbrev pub NoDollars : List Bytes → Type 0
NoDollars [] = Unit
NoDollars (p ∷ ps) = (dollars p ≡ 0) × NoDollars ps

pub dollars-append : (s t : Bytes) → dollars (s ++ t) ≡ dollars s + dollars t
unfolding dollars
dollars-append [] t = omega arith
dollars-append (c ∷ s) t = ground (arith, dollars-append s t)

span_digits-dollars : (s : Bytes) → dollars (span_digits s).1 ≤ dollars s
unfolding dollars span_digits
span_digits-dollars [] = omega arith
span_digits-dollars (c ∷ s) = ground (arith, span_digits-dollars s)

parameter_digits-dollars : (s : Bytes) → dollars (parameter_digits s).1 ≤ dollars s
unfolding parameter_digits dollars
parameter_digits-dollars [] = omega arith
parameter_digits-dollars (c ∷ s) = ground (arith, span_digits-dollars (c ∷ s))

get_param-dollars :
    (params : List Bytes) (i : ℕ) {found : Bytes}
    → NoDollars params
    → get_param params i ≡ some found
    → dollars found ≡ 0
unfolding get_param dollars
get_param-dollars [] i h g = ground arith
get_param-dollars (p ∷ ps) i {found} h g =
    ground (arith, get_param-dollars ps (i - 1) {found = found} h.1, h.0)

finish-ends :
    (a : Action) (argument : Bytes) (rest expansion : Lexed)
    → rest ≢ out_of_fuel
    → (a ≡ expand → expansion ≢ out_of_fuel)
    → finish a argument rest expansion ≢ out_of_fuel
finish-ends end_part argument (parts ps) e r x = cc
finish-ends end_part argument invalid_part e r x = cc
finish-ends end_part argument out_of_fuel e r x = r
finish-ends expand argument rest e r x = x refl
finish-ends (leave_out m) argument rest e r x = r
finish-ends (append m) argument rest e r x = r

action-expand : (mode : Mode) (c : ℕ) (last : Bool) → action mode c last ≡ expand → c ≡ b'$'
unfolding action
action-expand escaped c last h = cc
action-expand in_quotes c last h = ground arith
action-expand bare c last h = ground arith

dollars-tail : (c : ℕ) (s : Bytes) → dollars s ≤ dollars (c ∷ s)
unfolding dollars
dollars-tail c s = ground arith

dollars_of_dollar : (c : ℕ) (s : Bytes) → c ≡ b'$' → suc (dollars s) ≤ dollars (c ∷ s)
unfolding dollars
dollars_of_dollar c s h = ground arith

either_ends :
    (b : Bool) {x y : Lexed}
    → x ≢ out_of_fuel
    → y ≢ out_of_fuel
    → (if b then x else y) ≢ out_of_fuel
either_ends true p q = p
either_ends false p q = q

invalid-ends : invalid_part ≢ out_of_fuel
invalid-ends h = cc

module _ (params : List Bytes) (clean : NoDollars params) where
  parameter_value-dollars :
      (r : Result ℕ) {found : Bytes} → parameter_value params r ≡ some found → dollars found ≡ 0
  parameter_value-dollars (ok i) h = get_param-dollars params i clean h
  parameter_value-dollars (err e) h = cc

  expanded-ends :
      (n : ℕ) (again : Bytes → Bytes → Lexed)
      → ((argument r : Bytes) → suc (dollars r) ≤ n → again argument r ≢ out_of_fuel)
      → (argument rest : Bytes) (o : Option Bytes)
      → ((found : Bytes) → o ≡ some found → dollars found ≡ 0)
      → suc (dollars rest) ≤ n
      → expanded again argument rest o ≢ out_of_fuel
  expanded-ends n again ends argument rest none h l = cc
  expanded-ends n again ends argument rest (some v) h l =
      ends argument (v ++ rest) (omega (arith, dollars-append v rest, h v refl))

  expand-ends :
      (n : ℕ) (again : Bytes → Bytes → Lexed)
      → ((argument r : Bytes) → suc (dollars r) ≤ n → again argument r ≢ out_of_fuel)
      → (argument raw : Bytes) → suc (dollars raw) ≤ n
      → expand_parameter params again argument raw ≢ out_of_fuel
  unfolding expand_parameter
  expand-ends n again ends argument raw l = either_ends _ invalid-ends (
      expanded-ends n again ends argument (parameter_digits raw).1
        (parameter_value params (to_uint (parameter_digits raw).0 10))
        (λ v h. parameter_value-dollars _ h) (omega (arith, parameter_digits-dollars raw)))

  lex_text-ends :
      (n : ℕ) (again : Bytes → Bytes → Lexed)
      → ((argument r : Bytes) → suc (dollars r) ≤ n → again argument r ≢ out_of_fuel)
      → (raw : Bytes) (mode : Mode) (argument : Bytes) → dollars raw ≤ n
      → lex_text params again mode argument raw ≢ out_of_fuel
  unfolding lex_text dollars
  lex_text-ends n again ends [] mode argument l = cc
  lex_text-ends n again ends (c ∷ raw) mode argument l =
      finish-ends (action mode c (is_empty raw)) argument _ _
        (lex_text-ends n again ends raw _ _ (omega (arith, dollars-tail c raw)))
        (λ h.
          expand-ends n again ends argument raw
            (omega (arith, dollars_of_dollar c raw (action-expand mode c (is_empty raw) h))))

  pub lex_bare-ends :
      (n : ℕ) (argument r : Bytes)
      → suc (dollars r) ≤ n
      → lex_bare n params argument r ≢ out_of_fuel
  unfolding lex_bare
  lex_bare-ends zero argument r l = absurd (omega arith)
  lex_bare-ends (suc n) argument r l =
      lex_text-ends n (lex_bare n params) (lex_bare-ends n) r bare argument (omega arith)

  -- Where no parameter of the command line has a dollar sign in it, the lexer ends: it reads
  -- expanded parameters at most as often again as there are dollar signs in the text.
  pub lex_attachpoint-ends :
      (raw : Bytes) → lex_attachpoint (suc (dollars raw)) params raw ≢ out_of_fuel
  unfolding lex_attachpoint
  lex_attachpoint-ends raw = lex_bare-ends (suc (dollars raw)) [] raw (omega arith)
