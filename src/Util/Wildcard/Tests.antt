-- ===== src/Util/Wildcard/Tests.antt =====
-- Runs of the matcher, and the theorems about it at concrete texts.
use bpftrace.Util.Strings.{split_string, split_loop}
use bpftrace.Util.Wildcard.{
  wildcard_match, get_wildcard_tokens, match_tokens, anchored, ends_at, find, find_at,
}
use bpftrace.Util.Wildcard.Meaning.{Matches, wildcard_match_iff}
use bpftrace.Prelude.{◌≡◌, refl, ◌↔◌, Bool, true, false, Option, some, List, [], ◌∷◌, Bytes, codes}

abbrev foo_biz : List Bytes
foo_biz = codes "foo" ∷ codes "biz" ∷ []

runs : Bytes → List Bytes → Bool → Bool → Option Bool
unfolding wildcard_match match_tokens anchored ends_at find find_at
runs s ts sw ew = wildcard_match s ts sw ew

tokens_of_pattern : get_wildcard_tokens (codes "*foo**biz") false true ≡ (foo_biz, true, false)
unfolding get_wildcard_tokens split_string split_loop
tokens_of_pattern = refl

both_tokens : wildcard_match (codes "foobarbiz") foo_biz false false ≡ some true
unfolding runs
both_tokens = refl

not_at_start : wildcard_match (codes "xfoobiz") foo_biz false true ≡ some false
unfolding runs
not_at_start = refl

wildcard_match_iff_example :
    (wildcard_match (codes "xfoobizy") foo_biz true true ≡ some true)
    ↔ ((rest : Bytes) × Matches foo_biz true (codes "xfoobizy") rest)
wildcard_match_iff_example = wildcard_match_iff (codes "xfoobizy") foo_biz true
