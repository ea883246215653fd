-- ===== src/Functions/Registry.antt =====
-- The registry's candidates, and what `get` makes of them.
-- A registry that calls of `add` have made.
use bpftrace.Prelude.{
  ◌≡◌, refl, ap, true, some, List, [], ◌∷◌, ◌++◌, arith, if◌then◌else◌, sym, ap₂, ◌∙◌, inl, inr,
  Bool, false, Bool-cases, text_eq_refl, text_eq_iff, ◌≤◌, none, length, le→leb, length-append,
}
use bpftrace.Functions.{
  FunctionRegistry, FqName, Function, Origin, all_builtin, candidates, is_builtin, SizedType,
  append_to, preferred, Param, name_eq, add, no_candidates, choose, get, takes, found, cannot_call,
  get_from, assertion_failed,
}
use mathlib.Core.Bool.{false≢true}
use mathlib.Core.Path.{subst}

pub data Built : FunctionRegistry → Type 0 where
  built_empty : Built []
  built_add :
      (o : Origin) (key : FqName) (result : SizedType) (ps : List Param) {f : Function}
      {before after : FunctionRegistry}
      → Built before
      → add o key result ps before ≡ some (f, after)
      → Built after

-- Builtin functions, and behind them one function.
abbrev pub OneLast : List Function → Type 0
OneLast fs = (gs : List Function) × (f : Function) × (fs ≡ gs ++ f ∷ []) × (all_builtin gs ≡ true)

name_eq_sound : (a b : FqName) → name_eq a b ≡ true → a ≡ b
name_eq_sound a b h =
    let n : a.ns ≡ b.ns = (text_eq_iff a.ns b.ns).0 (ground arith) in
    let l : a.local_name ≡ b.local_name =
      (text_eq_iff a.local_name b.local_name).0 (ground arith) in
    ap₂ (λ x y. record { ns = x; local_name = y }) n l

name_eq_refl : (a : FqName) → name_eq a a ≡ true
name_eq_refl a = rw (text_eq_refl a.ns, text_eq_refl a.local_name) refl

name_eq_cong : (a b c : FqName) → name_eq a b ≡ true → name_eq a c ≡ name_eq b c
name_eq_cong a b c h = ap (λ d. name_eq d c) (name_eq_sound a b h)

name_eq-false : (a b c : FqName) → name_eq a b ≡ false → name_eq a c ≡ true → name_eq b c ≡ false
name_eq-false a b c h k = elim (Bool-cases (name_eq b c)) [
  | inl e ↦ absurd (false≢true (sym h ∙ ap (name_eq a) (name_eq_sound b c e) ∙ k))
  | inr e ↦ e
]

candidates-append :
    (key other : FqName) (f : Function) (registry : FunctionRegistry)
    → candidates other (append_to key f registry) ≡ (
        if name_eq key other
        then some (no_candidates (candidates key registry) ++ f ∷ [])
        else candidates other registry)
candidates-append key other f [] = refl
candidates-append key other f ((k, fs) ∷ rest) =
    ground (
      arith,
      name_eq_cong k key other,
      name_eq-false k key other,
      candidates-append key other f rest,
    )

if-some :
    {A : Type 0} (b : Bool) (x y : A) → (if b then some x else none) ≡ some y → (b ≡ true) × (y ≡ x)
if-some true x y h = (refl, cc)
if-some false x y h = cc

-- What `add` does where it succeeds.
add-shape :
    (o : Origin) (key : FqName) (result : SizedType) (ps : List Param) (f : Function)
    (before after : FunctionRegistry)
    → add o key result ps before ≡ some (f, after)
    → (all_builtin (no_candidates (candidates key before)) ≡ true)
      × (f.params ≡ ps)
      × (after ≡ append_to key f before)
unfolding add
add-shape o key result ps f before after h =
    let (b, e) = if-some (all_builtin (no_candidates (candidates key before))) _ (f, after) h in
    (
      b,
      ap (λ p. p.0.params) e,
      ap (λ p. p.1) e ∙ ap (λ g. append_to key g before) (sym (ap (λ p. p.0) e)),
    )

preferred-last :
    (g : Function) (gs : List Function) (f : Function)
    → is_builtin g ≡ true
    → all_builtin gs ≡ true
    → preferred g (gs ++ f ∷ []) ≡ f
preferred-last g [] f h k = rw h refl
preferred-last g (j ∷ gs) f h k = ground (arith, preferred-last j gs f)

some-injective : {A : Type 0} {x y : A} → some x ≡ some y → x ≡ y
some-injective h = cc

Built-OneLast :
    {registry : FunctionRegistry} (key : FqName) (fs : List Function)
    → Built registry
    → candidates key registry ≡ some fs
    → OneLast fs
Built-OneLast key fs built_empty h = cc
Built-OneLast key fs (built_add o k result ps {f} {before} {after} b e) h =
    let (builtins, _, grown) = add-shape o k result ps f before after e in
    let seen : candidates key (append_to k f before) ≡ some fs =
      sym (ap (candidates key) grown) ∙ h in
    elim (Bool-cases (name_eq k key)) [
      | inl same ↦ (
        no_candidates (candidates k before),
        f,
        some-injective (sym seen ∙ candidates-append k key f before ∙ rw same refl),
        builtins,
      )
      | inr other ↦
          Built-OneLast key fs b (sym (candidates-append k key f before ∙ rw other refl) ∙ seen)
    ]

choose-last :
    (ts : List SizedType) (gs : List Function) (f : Function)
    → all_builtin gs ≡ true
    → choose ts (gs ++ f ∷ []) ≡ (if takes f.params ts then found f else cannot_call f)
choose-last ts [] f h = refl
choose-last ts (g ∷ gs) f h = rw (preferred-last g gs f (ground arith) (ground arith)) refl

get_from-last :
    (ts : List SizedType) (gs : List Function) (f : Function)
    → length (gs ++ f ∷ []) ≤ 2
    → all_builtin gs ≡ true
    → get_from ts (some (gs ++ f ∷ [])) ≡ (if takes f.params ts then found f else cannot_call f)
get_from-last ts gs f n h =
    ap (λ b. if b then choose ts (gs ++ f ∷ []) else assertion_failed) (le→leb _ _ n)
    ∙ choose-last ts gs f h

-- In a registry that calls of `add` have made, the candidates of a name are builtin functions and
-- one function behind them; where they are at most two, `get` of the name returns that last one if
-- its parameters take the arguments, and else refuses the call. In particular it reads no null
-- candidate.
get-Built :
    {registry : FunctionRegistry} (key : FqName) (ts : List SizedType) (fs : List Function)
    → Built registry
    → candidates key registry ≡ some fs
    → length fs ≤ 2
    → (gs : List Function) × (f : Function) × (fs ≡ gs ++ f ∷ [])
      × (all_builtin gs ≡ true)
      × (get key ts registry ≡ (if takes f.params ts then found f else cannot_call f))
unfolding get
get-Built key ts fs b h n =
    let (gs, f, e, builtins) = Built-OneLast key fs b h in
    (
      gs,
      f,
      e,
      builtins,
      ap (get_from ts) (h ∙ ap (λ l. some l) e)
          ∙ get_from-last ts gs f (subst (λ l. length l ≤ 2) e n) builtins,
    )

candidates_self :
    (key : FqName) (f : Function) (registry : FunctionRegistry)
    → candidates key (append_to key f registry)
      ≡ some (no_candidates (candidates key registry) ++ f ∷ [])
candidates_self key f registry = candidates-append key key f registry ∙ rw (name_eq_refl key) refl

candidates-other :
    (key other : FqName) (f : Function) (registry : FunctionRegistry)
    → name_eq key other ≡ false
    → candidates other (append_to key f registry) ≡ candidates other registry
candidates-other key other f registry d = candidates-append key other f registry ∙ rw d refl

-- Where `add` succeeds and the name had at most one candidate, `get` of that name returns the new
-- function if its parameters take the arguments, and else refuses the call; `get` of another name
-- is as before.
pub add-get :
    (o : Origin) (key : FqName) (result : SizedType) (ps : List Param) (f : Function)
    (before after : FunctionRegistry) (ts : List SizedType)
    → length (no_candidates (candidates key before)) ≤ 1
    → add o key result ps before ≡ some (f, after)
    → (get key ts after ≡ (if takes ps ts then found f else cannot_call f))
      × ((other : FqName) → name_eq key other ≡ false → get other ts after ≡ get other ts before)
unfolding get
add-get o key result ps f before after ts n h =
    let (builtins, params, grown) = add-shape o key result ps f before after h in
    (
      ap (get_from ts) (ap (candidates key) grown ∙ candidates_self key f before)
          ∙ get_from-last ts (no_candidates (candidates key before)) f
              (omega (arith, length-append (no_candidates (candidates key before)) (f ∷ [])))
              builtins
          ∙ ap (λ qs. if takes qs ts then found f else cannot_call f) params,
      λ other d.
          ap (get_from ts) (ap (candidates other) grown ∙ candidates-other key other f before d),
    )
