-- ===== src/FormatString/Steps.antt =====
-- One round of the loop of `FormatString::parse` for each of its branches.
use mathlib.Core.Option
use bpftrace.FormatString.{FormatSpec, parse_loop, match_at, format_spec, add_spec, Groups}
use bpftrace.Prelude.{
  ℕ, ◌-◌, ◌≡◌, refl, true, false, none, some, [], ◌∷◌, ◌++◌, length, Bytes, codes, text_eq,
}

module _ (fragment : Bytes) (c : ℕ) (s : Bytes) where
  pub parse_loop-plain :
      match_at (c ∷ s) ≡ none → parse_loop 0 fragment (c ∷ s) ≡ parse_loop 0 (fragment ++ c ∷ []) s
  unfolding parse_loop
  parse_loop-plain e = rw (e, parse_loop) refl

  module _ (m : Groups) (matched : match_at (c ∷ s) ≡ some m) where
    pub parse_loop-raises : format_spec m ≡ none → parse_loop 0 fragment (c ∷ s) ≡ none
    unfolding parse_loop
    parse_loop-raises e = rw (matched, parse_loop) (rw e refl)

    pub parse_loop-percent :
        (spec : FormatSpec)
        → format_spec m ≡ some spec
        → text_eq spec.specifier (codes "%") ≡ true
        → parse_loop 0 fragment (c ∷ s)
          ≡ parse_loop (length s - length m.behind) (fragment ++ b'%' ∷ []) s
    unfolding parse_loop
    parse_loop-percent spec e t = rw (matched, parse_loop) (rw (e, t) refl)

    pub parse_loop-spec :
        (spec : FormatSpec)
        → format_spec m ≡ some spec
        → text_eq spec.specifier (codes "%") ≡ false
        → parse_loop 0 fragment (c ∷ s)
          ≡ Option.map (add_spec fragment spec) (parse_loop (length s - length m.behind) [] s)
    unfolding parse_loop
    parse_loop-spec spec e t = rw (matched, parse_loop) (rw (e, t) refl)
