-- ===== src/FormatString/Escaped.antt =====
-- A format string is read back from its text.
use mathlib.Core.Option
use bpftrace.FormatString.{
  FormatSpec, FormatString, Groups, parse, parse_loop, match_at, format_spec, flag, number_group,
  precision_group, length_group, specifier_group, add_spec,
}
use bpftrace.FormatString.Written.{show_spec, IsSpecifier, one, plain_hex, escaped_hex, buffer}
use bpftrace.FormatString.Matched.{IsWritten, groups_of, match_at-show_spec}
use bpftrace.FormatString.Steps.{parse_loop-plain, parse_loop-percent, parse_loop-spec}
use bpftrace.Prelude.{
  ℕ, ◌-◌, ◌≡◌, refl, ap, ◌∙◌, inl, inr, true, false, none, some, List, [], ◌∷◌, ◌++◌, arith, ◌==◌,
  if◌then◌else◌, ==_iff, Bool-cases, length, Bytes, codes, text_eq, length-append,
}
use mathlib.Core.List.{append-nil, append_assoc}

-- A fragment with its percent signs doubled, before some text.
abbrev pub escape : Bytes → Bytes → Bytes
escape [] behind = behind
escape (c ∷ s) behind = if c == b'%' then b'%' ∷ b'%' ∷ escape s behind else c ∷ escape s behind

-- The text of a format string.
abbrev pub render : List Bytes → List FormatSpec → Bytes
render [] specs = []
render (fragment ∷ fragments) [] = escape fragment []
render (fragment ∷ fragments) (spec ∷ specs) =
    escape fragment (b'%' ∷ show_spec spec (render fragments specs))

-- Fragments and specifiers alternate, and each specifier can be written.
abbrev pub AllWritten : List Bytes → List FormatSpec → Type 0
AllWritten [] specs = ⊥
AllWritten (fragment ∷ []) [] = Unit {0}
AllWritten (fragment ∷ next ∷ fragments) [] = ⊥
AllWritten (fragment ∷ fragments) (spec ∷ specs) =
    IsWritten spec (render fragments specs) × AllWritten fragments specs

parse_loop-skip :
    (t s fragment : Bytes) → parse_loop (length t) fragment (t ++ s) ≡ parse_loop 0 fragment s
unfolding parse_loop
parse_loop-skip [] s fragment = refl
parse_loop-skip (c ∷ t) s fragment = parse_loop-skip t s fragment

match_at-plain : (c : ℕ) (s : Bytes) → (c == b'%') ≡ false → match_at (c ∷ s) ≡ none
unfolding match_at
match_at-plain c s f = rw f refl

abbrev percent_groups : Bytes → Groups
percent_groups behind = record {
  minus = false;
  plus = false;
  space = false;
  sharp = false;
  zero_flag = false;
  width_text = [];
  precision_text = [];
  length_text = [];
  specifier_text = codes "%";
  behind = behind;
}

match_at-percent : (s : Bytes) → match_at (b'%' ∷ b'%' ∷ s) ≡ some (percent_groups s)
unfolding match_at flag number_group precision_group length_group specifier_group
match_at-percent s = refl

percent_spec :
    (s : Bytes)
    → (spec : FormatSpec) × (format_spec (percent_groups s) ≡ some spec)
      × (text_eq spec.specifier (codes "%") ≡ true)
unfolding format_spec
percent_spec s = (_, refl, refl)

parse_loop-two_percents :
    (fragment rest : Bytes)
    → parse_loop 0 fragment (b'%' ∷ b'%' ∷ rest) ≡ parse_loop 0 (fragment ++ b'%' ∷ []) rest
unfolding parse_loop
parse_loop-two_percents fragment rest =
    let (spec, e, p) = percent_spec rest in
    let one_left : length (b'%' ∷ rest) - length rest ≡ 1 = omega arith in
    parse_loop-percent fragment b'%' (b'%' ∷ rest) (percent_groups rest) (match_at-percent rest)
      spec e p
    ∙ ap (λ k. parse_loop k (fragment ++ b'%' ∷ []) (b'%' ∷ rest)) one_left

parse_loop-escape :
    (f fragment behind : Bytes)
    → parse_loop 0 fragment (escape f behind) ≡ parse_loop 0 (fragment ++ f) behind
parse_loop-escape [] fragment behind = rw append-nil refl
parse_loop-escape (c ∷ f) fragment behind = elim (Bool-cases (c == b'%')) [
  | inl t ↦
      let sign = (==_iff c b'%').0 t in
      rw (t, sign)
        (parse_loop-two_percents fragment (escape f behind)
          ∙ parse_loop-escape f (fragment ++ b'%' ∷ []) behind
          ∙ ap (λ u. parse_loop 0 u behind) (append_assoc fragment (b'%' ∷ []) f))
  | inr t ↦ rw t (
      parse_loop-plain fragment c (escape f behind) (match_at-plain c _ t)
      ∙ parse_loop-escape f (fragment ++ c ∷ []) behind
      ∙ ap (λ u. parse_loop 0 u behind) (append_assoc fragment (c ∷ []) f))
]

specifier-percent : {s behind : Bytes} → IsSpecifier s behind → text_eq s (codes "%") ≡ false
specifier-percent (one c behind m) = ground (arith, m)
specifier-percent (plain_hex behind) = refl
specifier-percent (escaped_hex behind) = refl
specifier-percent (buffer behind h x) = refl

show_spec-append : (spec : FormatSpec) (s : Bytes) → show_spec spec s ≡ show_spec spec [] ++ s
show_spec-append spec s = simp (append_assoc, append-nil)

length-show_spec :
    (spec : FormatSpec) (s : Bytes)
    → length (show_spec spec s) - length s ≡ length (show_spec spec [])
length-show_spec spec s =
    let e = ap length (show_spec-append spec s) in
    omega (arith, e, length-append (show_spec spec []) s)

parse_loop-show_spec :
    (fragment : Bytes) (spec : FormatSpec) (s : Bytes)
    → IsWritten spec s
    → parse_loop 0 fragment (b'%' ∷ show_spec spec s)
      ≡ Option.map (add_spec fragment spec) (parse_loop 0 [] s)
parse_loop-show_spec fragment spec s w =
    let m = match_at-show_spec spec s w in
    parse_loop-spec fragment b'%' (show_spec spec s) (groups_of spec s) m.0 spec m.1
      (specifier-percent w.specifier_fits)
    ∙ ap (Option.map (add_spec fragment spec)) (
        ap (λ k. parse_loop k [] (show_spec spec s)) (length-show_spec spec s)
        ∙ ap (parse_loop (length (show_spec spec [])) []) (show_spec-append spec s)
        ∙ parse_loop-skip (show_spec spec []) s [])

parse_loop-render :
    (fragment f : Bytes) (fragments : List Bytes) (specs : List FormatSpec)
    → AllWritten (f ∷ fragments) specs
    → parse_loop 0 fragment (render (f ∷ fragments) specs)
      ≡ some (record { fragments = (fragment ++ f) ∷ fragments; specs = specs })
unfolding parse_loop
parse_loop-render fragment f [] [] w = parse_loop-escape f fragment []
parse_loop-render fragment f (g ∷ fragments) [] w = elim w [ ]
parse_loop-render fragment f [] (spec ∷ specs) w = elim (w.1) [ ]
parse_loop-render fragment f (g ∷ fragments) (spec ∷ specs) w =
    let rest = render (g ∷ fragments) specs in
    parse_loop-escape f fragment (b'%' ∷ show_spec spec rest)
    ∙ parse_loop-show_spec (fragment ++ f) spec rest w.0
    ∙ ap (Option.map (add_spec (fragment ++ f) spec)) (parse_loop-render [] g fragments specs w.1)

rendered :
    (fragments : List Bytes) (specs : List FormatSpec)
    → AllWritten fragments specs
    → parse_loop 0 [] (render fragments specs)
      ≡ some (record { fragments = fragments; specs = specs })
rendered [] specs w = elim w [ ]
rendered (f ∷ fragments) specs w = parse_loop-render [] f fragments specs w

-- A format string is read back from its text, where the fragments stand round the specifiers, with
-- their percent signs doubled, where numbers fit an `int`, and where no fragment behind a `%r` begins
-- with a letter that would be read as a part of it.
pub parse-render :
    (fmt : FormatString)
    → AllWritten fmt.fragments fmt.specs
    → parse (render fmt.fragments fmt.specs) ≡ some fmt
unfolding parse
parse-render fmt w = rendered fmt.fragments fmt.specs w
