-- ===== src/Ast/AttachPoint/Lex/Plain.antt =====
-- Parts without quotes, colons and dollar signs.
use bpftrace.Prelude.{ℕ, suc, ◌≡◌, refl, sym, ap, ◌∙◌, ◌≢◌, List, [], ◌∷◌, ◌++◌, arith, Bytes}
use bpftrace.Ast.AttachPoint.Lex.{
  Lexed, lex_attachpoint, lex_text, lex_bare, action, bare, parts, add_part,
}
use bpftrace.Util.Strings.{str_join}
use bpftrace.Util.Strings.Split.{str_join-one, str_join-cons}
use mathlib.Core.List.{append-nil, append_assoc}

abbrev pub Plain : Bytes → Type 0
Plain [] = Unit
Plain (c ∷ s) = (c ≢ b':') × (c ≢ b'"') × (c ≢ b'$') × Plain s

abbrev pub AllPlain : List Bytes → Type 0
AllPlain [] = Unit
AllPlain (p ∷ ps) = Plain p × AllPlain ps

pub Plain-append : (s t : Bytes) → Plain s → Plain t → Plain (s ++ t)
Plain-append [] t p q = q
Plain-append (c ∷ s) t (a, b, d, p) q = (a, b, d, Plain-append s t p q)

module _ (params : List Bytes) (again : Bytes → Bytes → Lexed) where
  pub lex-Plain :
      (argument p s : Bytes)
      → Plain p
      → lex_text params again bare argument (p ++ s) ≡ lex_text params again bare (argument ++ p) s
  unfolding lex_text action
  lex-Plain argument [] s h = rw (append-nil argument) refl
  lex-Plain argument (c ∷ p) s (a, b, d, h) =
      ground
        (arith, a, b, d, lex-Plain (argument ++ (c ∷ [])) p s h, append_assoc argument (c ∷ []) p)

  lex-AllPlain :
      (p : Bytes) (ps : List Bytes)
      → AllPlain (p ∷ ps)
      → lex_text params again bare [] (str_join (p ∷ ps) (b':' ∷ [])) ≡ parts (p ∷ ps)
  unfolding lex_text action
  lex-AllPlain p [] h =
      rw (str_join-one (b':' ∷ []) p)
        (ap (λ t. lex_text params again bare [] t) (sym (append-nil p)) ∙ lex-Plain [] p [] h.0)
  lex-AllPlain p (q ∷ ps) h = rw (str_join-cons (b':' ∷ []) p q ps) (
      lex-Plain [] p (b':' ∷ str_join (q ∷ ps) (b':' ∷ [])) h.0
      ∙ ap (add_part p) (lex-AllPlain q ps h.1))

pub lex_attachpoint-AllPlain :
    (n : ℕ) (params : List Bytes) (p : Bytes) (ps : List Bytes)
    → AllPlain (p ∷ ps)
    → lex_attachpoint (suc n) params (str_join (p ∷ ps) (b':' ∷ [])) ≡ parts (p ∷ ps)
unfolding lex_attachpoint lex_bare
lex_attachpoint-AllPlain n params p ps h = lex-AllPlain params (lex_bare n params) p ps h
