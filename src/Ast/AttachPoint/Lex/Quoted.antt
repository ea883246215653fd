-- ===== src/Ast/AttachPoint/Lex/Quoted.antt =====
-- Quoting a part of an attach point, and reading it again.
use bpftrace.Prelude.{
  ◌≡◌, refl, ap, ◌||◌, List, [], ◌∷◌, ◌++◌, map, arith, ◌==◌, if◌then◌else◌, Bytes, ℕ, suc, sym,
  ◌∙◌,
}
use bpftrace.Ast.AttachPoint.Lex.{
  Lexed, lex_text, action, in_quotes, bare, parts, add_part, lex_attachpoint, lex_bare,
}
use mathlib.Core.List.{append-nil, append_assoc}
use bpftrace.Util.Strings.{str_join}
use bpftrace.Util.Strings.Split.{str_join-one, str_join-cons}

-- A text between double quotes, with a backslash before each quote and each backslash in it.
unfoldable pub quote_rest : Bytes → Bytes
quote_rest [] = b'"' ∷ []
quote_rest (c ∷ p) =
    if (c == b'"') || (c == b'\\') then b'\\' ∷ c ∷ quote_rest p else c ∷ quote_rest p

abbrev pub quoted : Bytes → Bytes
quoted p = b'"' ∷ quote_rest p

module _ (params : List Bytes) (again : Bytes → Bytes → Lexed) where
  lex-quote_rest :
      (argument p s : Bytes)
      → lex_text params again in_quotes argument (quote_rest p ++ s)
        ≡ lex_text params again bare (argument ++ p) s
  unfolding lex_text quote_rest action
  lex-quote_rest argument [] s = rw (append-nil argument) refl
  lex-quote_rest argument (c ∷ p) s =
      ground (arith, lex-quote_rest (argument ++ (c ∷ [])) p s, append_assoc argument (c ∷ []) p)

  lex-quoted_parts :
      (p : Bytes) (ps : List Bytes)
      → lex_text params again bare [] (str_join (map quoted (p ∷ ps)) (b':' ∷ [])) ≡ parts (p ∷ ps)
  unfolding lex_text action
  lex-quoted_parts p [] = rw (str_join-one (b':' ∷ []) (quoted p)) (
      ap (λ t. lex_text params again in_quotes [] t) (sym (append-nil (quote_rest p)))
      ∙ lex-quote_rest [] p [])
  lex-quoted_parts p (q ∷ ps) =
      rw (str_join-cons (b':' ∷ []) (quoted p) (quoted q) (map quoted ps)) (
        lex-quote_rest [] p (b':' ∷ str_join (quoted q ∷ map quoted ps) (b':' ∷ []))
        ∙ ap (add_part p) (lex-quoted_parts q ps))

-- Any texts at all can be the parts of an attach point: written between double quotes, with a
-- backslash before each quote and each backslash, and joined by colons, they are read as they were,
-- whatever the parameters of the command line.
pub lex_attachpoint-quoted :
    (n : ℕ) (params : List Bytes) (p : Bytes) (ps : List Bytes)
    → lex_attachpoint (suc n) params (str_join (map quoted (p ∷ ps)) (b':' ∷ [])) ≡ parts (p ∷ ps)
unfolding lex_attachpoint lex_bare
lex_attachpoint-quoted n params p ps = lex-quoted_parts params (lex_bare n params) p ps
