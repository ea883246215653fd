-- ===== src/Ast/AttachPoint/Lex/Tests.antt =====
-- The lexer on small texts, and its theorems there.
use bpftrace.Prelude.{◌≡◌, refl, [], ◌∷◌, codes, suc, ◌≢◌, List, map, Bytes}
use bpftrace.Ast.AttachPoint.Lex.{
  lex_attachpoint, lex_bare, lex_text, parts, parameter_digits, action, get_param, out_of_fuel,
  expand_parameter,
}
use bpftrace.Util.Strings.{str_join}
use bpftrace.Ast.AttachPoint.Lex.Parameters.{dollars, lex_own_parameter, lex_attachpoint-ends}
use bpftrace.Ast.AttachPoint.Lex.Quoted.{quoted, lex_attachpoint-quoted}
use bpftrace.Util.IntParser.Digits.{to_uint_one}

plain_parts :
    lex_attachpoint 1 [] (codes "kprobe:vfs_read") ≡ parts (codes "kprobe" ∷ codes "vfs_read" ∷ [])
unfolding lex_attachpoint lex_bare lex_text
plain_parts = refl

quoted_parts : lex_attachpoint 1 [] (codes "u:\"a:b\\\"\"") ≡ parts (codes "u" ∷ codes "a:b\"" ∷ [])
unfolding lex_attachpoint lex_bare lex_text
quoted_parts = refl

lex_attachpoint-quoted_example :
    lex_attachpoint 1 [] (str_join (map quoted (codes "u" ∷ codes "a:\"$1" ∷ [])) (codes ":"))
    ≡ parts (codes "u" ∷ codes "a:\"$1" ∷ [])
lex_attachpoint-quoted_example = lex_attachpoint-quoted 0 [] (codes "u") (codes "a:\"$1" ∷ [])

abbrev own_name : List Bytes
own_name = codes "$1" ∷ []

lex_own_parameter_example : lex_attachpoint 100 own_name (codes "$1") ≡ out_of_fuel
unfolding parameter_digits get_param
lex_own_parameter_example =
    lex_own_parameter 100 own_name (codes "1") (codes "1") [] (codes "$1") 1 refl refl to_uint_one
      refl refl

lex_attachpoint-ends_example :
    lex_attachpoint (suc (dollars (codes "k:$1"))) (codes "x" ∷ []) (codes "k:$1") ≢ out_of_fuel
unfolding dollars
lex_attachpoint-ends_example = lex_attachpoint-ends (codes "x" ∷ []) (refl, tt) (codes "k:$1")

-- A parameter's value is read as text of the attach point: its colon ends a part.
parameter_parts :
    lex_attachpoint 2 (codes "x:y" ∷ []) (codes "k:$1")
    ≡ parts (codes "k" ∷ codes "x" ∷ codes "y" ∷ [])
unfolding lex_attachpoint lex_bare lex_text action expand_parameter
parameter_parts = rw to_uint_one refl
