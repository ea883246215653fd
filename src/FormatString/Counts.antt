-- ===== src/FormatString/Counts.antt =====
-- Fragments stand round the specifiers, and arguments that pass the check are all printed.
use mathlib.Core.Option
use bpftrace.FormatString.{
  FormatSpec, FormatString, parse, parse_loop, match_at, format_spec, add_spec,
}
use bpftrace.FormatString.Check.{ok, check}
use bpftrace.FormatString.Format.{format, format_loop, apply, embed, back}
use bpftrace.FormatString.Apply.{Conversions}
use bpftrace.Output.Text.{Runtime}
use bpftrace.Output.Primitive.{Primitive}
use bpftrace.Types.{SizedType}
use bpftrace.Prelude.{
  ℕ, zero, suc, ◌-◌, ◌≡◌, refl, ap, inl, inr, Option, none, some, [], ◌∷◌, ◌++◌, Bool-cases,
  Option-cases, length, Bytes, codes, text_eq, ◌<◌, sym, ◌∙◌, List, arith,
}
use mathlib.Core.Path.{subst}
use bpftrace.FormatString.Steps.{
  parse_loop-plain, parse_loop-raises, parse_loop-percent, parse_loop-spec,
}
use mathlib.Core.List.{append_assoc}

abbrev Alternates : Option FormatString → Type 0
Alternates none = Unit {0}
Alternates (some fmt) = length fmt.fragments ≡ suc (length fmt.specs)

Alternates-add_spec :
    (fragment : Bytes) (spec : FormatSpec) (o : Option FormatString)
    → Alternates o
    → Alternates (Option.map (add_spec fragment spec) o)
Alternates-add_spec fragment spec none h = tt
Alternates-add_spec fragment spec (some fmt) h = ap suc h

parse_loop-Alternates : (skip : ℕ) (fragment s : Bytes) → Alternates (parse_loop skip fragment s)
unfolding parse_loop
parse_loop-Alternates zero fragment [] = refl
parse_loop-Alternates (suc skip) fragment [] = refl
parse_loop-Alternates (suc skip) fragment (c ∷ s) = parse_loop-Alternates skip fragment s
parse_loop-Alternates zero fragment (c ∷ s) = elim (Option-cases (match_at (c ∷ s))) [
  | inl e ↦
      subst Alternates (sym (parse_loop-plain fragment c s e))
        (parse_loop-Alternates 0 (fragment ++ c ∷ []) s)
  | inr (m, e) ↦ elim (Option-cases (format_spec m)) [
    | inl f ↦ subst Alternates (sym (parse_loop-raises fragment c s m e f)) tt
    | inr (spec, f) ↦ elim (Bool-cases (text_eq spec.specifier (codes "%"))) [
      | inl t ↦
          subst Alternates (sym (parse_loop-percent fragment c s m e spec f t))
            (parse_loop-Alternates (length s - length m.behind) (fragment ++ b'%' ∷ []) s)
      | inr t ↦ subst Alternates (sym (parse_loop-spec fragment c s m e spec f t)) (
          Alternates-add_spec fragment spec _
            (parse_loop-Alternates (length s - length m.behind) [] s))
    ]
  ]
]

-- A format string that is parsed has one fragment more than it has specifiers.
pub parse-length :
    (text : Bytes) (fmt : FormatString)
    → parse text ≡ some fmt
    → length fmt.fragments ≡ suc (length fmt.specs)
unfolding parse
parse-length text fmt h = subst Alternates h (parse_loop-Alternates 0 [] text)

-- The fragments with the outputs between them.
abbrev pub weave : List Bytes → List Bytes → Bytes
weave [] outputs = []
weave (fragment ∷ fragments) [] = fragment
weave (fragment ∷ fragments) (o ∷ outputs) = fragment ++ (o ++ weave fragments outputs)

-- The checked arguments are as many as the specifiers.
check-length :
    (fmt : FormatString) (types : List SizedType)
    → check fmt types ≡ ok
    → length types ≡ length fmt.specs
unfolding check
check-length fmt types h = ground (arith, h)

module _ (host : Runtime) (conv : Conversions) where
  abbrev pub outputs : List FormatSpec → List Primitive → List Bytes
  outputs [] args = []
  outputs (spec ∷ specs) [] = []
  outputs (spec ∷ specs) (arg ∷ args) = embed (apply host conv spec arg) ∷ outputs specs args

  format_loop-weave :
      (last : Bytes) (fragments : List Bytes) (specs : List FormatSpec) (args : List Primitive)
      (ss : Bytes)
      → back fragments ≡ some last
      → length fragments ≡ suc (length specs)
      → length args ≡ length specs
      → format_loop host conv last fragments specs args ss
        ≡ some (ss ++ weave fragments (outputs specs args))
  unfolding format_loop back
  format_loop-weave last [] specs args ss b n k = absurd (omega (arith, n))
  format_loop-weave last (f ∷ []) [] [] ss b n k = cc
  format_loop-weave last (f ∷ g ∷ fs) [] [] ss b n k = absurd (omega (arith, n))
  format_loop-weave last fs [] (a ∷ args) ss b n k = absurd (omega (arith, k))
  format_loop-weave last fs (s ∷ specs) [] ss b n k = absurd (omega (arith, k))
  format_loop-weave last (f ∷ []) (s ∷ specs) (a ∷ args) ss b n k = absurd (omega (arith, n))
  format_loop-weave last (f ∷ g ∷ fs) (s ∷ specs) (a ∷ args) ss b n k =
      let o = embed (apply host conv s a) in
      format_loop-weave last (g ∷ fs) specs args (ss ++ (f ++ o)) b (omega (arith, n))
        (omega (arith, k))
      ∙ ap some (simp append_assoc)

  some-back :
      (fragments : List Bytes)
      → 0 < length fragments
      → (last : Bytes) × (back fragments ≡ some last)
  unfolding back
  some-back [] h = elim h [ ]
  some-back (f ∷ []) h = (f, refl)
  some-back (f ∷ g ∷ fs) h = some-back (g ∷ fs) (omega arith)

  -- Where a parsed format string passes the check for the types of the arguments, `format` reads
  -- nothing out of range, and prints the fragments with the text of each argument between them.
  pub format-weave :
      (text : Bytes) (fmt : FormatString) (types : List SizedType) (args : List Primitive)
      → parse text ≡ some fmt
      → check fmt types ≡ ok
      → length args ≡ length types
      → format host conv fmt args ≡ some (weave fmt.fragments (outputs fmt.specs args))
  unfolding format
  format-weave text fmt types args p c k =
      let n = parse-length text fmt p in
      let (last, b) = some-back fmt.fragments (omega (arith, n)) in
      rw (b, format)
        (format_loop-weave last fmt.fragments fmt.specs args [] b n (k ∙ check-length fmt types c))
