-- ===== src/Ast/AttachPoint/Parse/Turns.antt =====
-- How many turns the loop over the attach points of a probe takes.
use bpftrace.Util.Wildcard.{has_wildcard}
use bpftrace.Prelude.{
  ℕ, suc, ◌≤◌, ◌≡◌, refl, ◌≢◌, Bool, true, false, Option, none, some, List, [], ◌∷◌, ◌++◌, arith,
  if◌then◌else◌, length, Bytes, text_eq, zero, map, inl, inr, Bool-cases, ◌||◌, codes, length-map,
}
use bpftrace.Util.Strings.{erase_prefix}
use bpftrace.Ast.AttachPoint.Lex.Parameters.{dollars, NoDollars, lex_bare-ends, dollars-append}
use bpftrace.Ast.AttachPoint.{Host, AttachPoint, is_some}
use bpftrace.Ast.AttachPoint.Lex.Plain.{Plain, lex-Plain}
use bpftrace.Ast.AttachPoint.Lex.{
  lex_text, action, Lexed, add_part, bare, out_of_fuel, parts, invalid_part, lex_bare,
  lex_attachpoint,
}
use bpftrace.Ast.AttachPoint.Parse.{
  parse_lexed, Outcome, probe_types, parse_types, parse_attachpoint, new_attach_point, is_single,
  has_slash,
}

-- Names of kinds of probes: without wildcards, quotes, colons and dollar signs.
abbrev pub Names : List Bytes → Type 0
Names [] = Unit
Names (t ∷ ts) = Plain t × (has_wildcard t ≡ false) × Names ts

-- What the matching of kinds of probes gives for a pattern: at most `k` names.
abbrev pub Matches : ℕ → (Bytes → List Bytes) → Type 0
Matches k expansion =
    (q : Bytes) → has_wildcard q ≡ true → Names (expansion q) × (length (expansion q) ≤ k)

Plain-dollars : (s : Bytes) → Plain s → dollars s ≡ 0
unfolding dollars
Plain-dollars [] h = refl
Plain-dollars (c ∷ s) (a, b, d, h) = ground (arith, d, Plain-dollars s h)

erase_prefix-dollars : (s : Bytes) → dollars (erase_prefix s).1 ≤ dollars s
unfolding erase_prefix dollars
erase_prefix-dollars [] = omega arith
erase_prefix-dollars (c ∷ s) = ground (arith, erase_prefix-dollars s)

dollars_colon : (s : Bytes) → dollars (b':' ∷ s) ≡ dollars s
unfolding dollars
dollars_colon s = refl

-- The text of a new attach point behind the name of its kind.
abbrev rest_of : AttachPoint → List Bytes → Bytes
rest_of a ps = if is_single ps then a.raw_input else (erase_prefix a.raw_input).1

rest_of-dollars : (a : AttachPoint) (ps : List Bytes) → dollars (rest_of a ps) ≤ dollars a.raw_input
rest_of-dollars a ps = elim (Bool-cases (is_single ps)) [
  | inl t ↦ rw t (omega arith)
  | inr f ↦ rw f (erase_prefix-dollars a.raw_input)
]

abbrev query_of : Bytes → List Bytes → Bytes
query_of p ps = if is_single ps then codes "*" else p

query_of-wild :
    (p : Bytes) (ps : List Bytes) → has_wildcard p ≡ true → has_wildcard (query_of p ps) ≡ true
unfolding has_wildcard
query_of-wild p ps w = elim (Bool-cases (is_single ps)) [ inl t ↦ rw t refl | inr f ↦ rw f w ]

module _ (n : ℕ) (host : Host) (clean : NoDollars host.params) (listing : Bool) where
  -- An attach point whose first part is a name, and for which the lexer has enough fuel.
  abbrev pub IsNamed : AttachPoint → Type 0
  IsNamed a =
      (t r : Bytes) × (a.raw_input ≡ t ++ (b':' ∷ r))
      × Plain t
      × (has_wildcard t ≡ false)
      × (suc (dollars a.raw_input) ≤ n)

  abbrev pub AllNamed : List AttachPoint → Type 0
  AllNamed [] = Unit
  AllNamed (a ∷ l) = IsNamed a × AllNamed l

  -- A turn ends, and adds no attach points.
  abbrev pub AddsNone : Option Outcome → Type 0
  AddsNone none = ⊥
  AddsNone (some o) = o.new_attach_points ≡ []

  either_adds_none :
      (b : Bool) (x y : Outcome)
      → x.new_attach_points ≡ []
      → y.new_attach_points ≡ []
      → (if b then x else y).new_attach_points ≡ []
  either_adds_none true x y p q = p
  either_adds_none false x y p q = q

  named_parts :
      (has_iter : Bool) (a : AttachPoint) (t : Bytes) (r : Lexed)
      → has_wildcard t ≡ false
      → add_part t r ≢ out_of_fuel
      → AddsNone (parse_lexed host listing has_iter a (add_part t r))
  unfolding parse_lexed probe_types parse_types
  named_parts has_iter a t (parts ps) w e = rw w (either_adds_none (text_eq t []) _ _ refl refl)
  named_parts has_iter a t invalid_part w e = refl
  named_parts has_iter a t out_of_fuel w e = absurd (e refl)

  first_part :
      (t r : Bytes) (again : Bytes → Bytes → Lexed)
      → Plain t
      → lex_text host.params again bare [] (t ++ (b':' ∷ r))
        ≡ add_part t (lex_text host.params again bare [] r)
  unfolding lex_text action
  first_part t r again p = lex-Plain host.params again [] t (b':' ∷ r) p

  named_lexed :
      (m : ℕ) (t r : Bytes)
      → Plain t
      → suc (dollars (t ++ (b':' ∷ r))) ≤ m
      → (x : Lexed) × (lex_bare m host.params [] (t ++ (b':' ∷ r)) ≡ add_part t x)
  unfolding lex_bare
  named_lexed zero t r p b = absurd (omega (arith, b))
  named_lexed (suc m) t r p b = (
    lex_text host.params (lex_bare m host.params) bare [] r,
    first_part t r (lex_bare m host.params) p,
  )

  pub named_turn :
      (has_iter : Bool) (a : AttachPoint)
      → IsNamed a
      → AddsNone (parse_attachpoint n host listing has_iter a)
  unfolding parse_attachpoint lex_attachpoint
  named_turn has_iter a (t, r, e, p, w, b) =
      let (x, q) = named_lexed n t r p (rw e at b) in
      let lexed : lex_bare n host.params [] a.raw_input ≡ add_part t x = rw e q in
      rw lexed (
        named_parts has_iter a t x w
          (rw lexed at (lex_bare-ends host.params clean n [] a.raw_input b)))

  module _ (k : ℕ) (kernel : Matches k host.expand_probetype_kernel)
      (user : Matches k host.expand_probetype_userspace) where
    -- A turn ends, and adds at most `k` attach points, each with the name of a kind of probe.
    abbrev pub Adds : List AttachPoint → Type 0
    Adds l = AllNamed l × (length l ≤ k)

    abbrev pub AddsSome : Option Outcome → Type 0
    AddsSome none = ⊥
    AddsSome (some o) = Adds o.new_attach_points

    all_named :
        (a : AttachPoint) (ps ts : List Bytes)
        → suc (dollars a.raw_input) ≤ n
        → Names ts
        → AllNamed (map (new_attach_point a ps) ts)
    all_named a ps [] b h = tt
    all_named a ps (t ∷ ts) b (p, w, h) = (
      (
        t,
        rest_of a ps,
        refl,
        p,
        w,
        omega (
          arith,
          dollars-append t (b':' ∷ rest_of a ps),
          Plain-dollars t p,
          dollars_colon (rest_of a ps),
          rest_of-dollars a ps,
          b,
        ),
      ),
      all_named a ps ts b h,
    )

    types_add :
        (has_iter : Bool) (a : AttachPoint) (ps ts : List Bytes)
        → suc (dollars a.raw_input) ≤ n
        → Names ts
        → length ts ≤ k
        → Adds (parse_types host listing has_iter a ps ts).new_attach_points
    unfolding parse_types
    types_add has_iter a ps [] b h l = (tt, omega arith)
    types_add has_iter a ps (t ∷ []) b h l = (tt, omega arith)
    types_add has_iter a ps (t ∷ u ∷ ts) b h l =
        (all_named a ps (t ∷ u ∷ ts) b h, rw (length-map (t ∷ u ∷ ts) (new_attach_point a ps)) l)

    front-Adds :
        (has_iter : Bool) (a : AttachPoint) (p : Bytes) (ps : List Bytes)
        → suc (dollars a.raw_input) ≤ n
        → Adds
            (parse_types host listing has_iter a
              (p ∷ ps)
              (probe_types host p (p ∷ ps))).new_attach_points
    unfolding probe_types parse_types
    front-Adds has_iter a p ps b = elim (Bool-cases (has_wildcard p)) [
      | inr f ↦ rw f (tt, omega arith)
      | inl w ↦
          let q = query_of p (p ∷ ps) in
          let wild = query_of-wild p (p ∷ ps) w in
          elim (Bool-cases (is_some host.pid || has_slash (p ∷ ps))) [
            | inl u ↦
                rw w (rw u (types_add has_iter a (p ∷ ps) _ b (user q wild).0 (user q wild).1))
            | inr v ↦
                rw w (rw v (types_add has_iter a (p ∷ ps) _ b (kernel q wild).0 (kernel q wild).1))
          ]
    ]

    lexed_turn :
        (has_iter : Bool) (a : AttachPoint) (r : Lexed)
        → suc (dollars a.raw_input) ≤ n
        → r ≢ out_of_fuel
        → AddsSome (parse_lexed host listing has_iter a r)
    unfolding parse_lexed
    lexed_turn has_iter a out_of_fuel b e = absurd (e refl)
    lexed_turn has_iter a invalid_part b e = (tt, omega arith)
    lexed_turn has_iter a (parts []) b e = (tt, omega arith)
    lexed_turn has_iter a (parts (p ∷ ps)) b e = elim (Bool-cases (text_eq p [])) [
      | inl t ↦ rw t (tt, omega arith)
      | inr f ↦ rw f (front-Adds has_iter a p ps b)
    ]

    pub some_turn :
        (has_iter : Bool) (a : AttachPoint)
        → suc (dollars a.raw_input) ≤ n
        → AddsSome (parse_attachpoint n host listing has_iter a)
    unfolding parse_attachpoint lex_attachpoint
    some_turn has_iter a b =
        lexed_turn has_iter a _ b (lex_bare-ends host.params clean n [] a.raw_input b)
