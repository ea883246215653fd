-- ===== src/Ast/AttachPoint/Parse/Fresh.antt =====
-- Attach points whose parts are quoted.
use bpftrace.Prelude.{ℕ, suc, ◌≡◌, refl, Bool, false, some, List, [], ◌∷◌, map, Bytes}
use bpftrace.Ast.AttachPoint.Parse.{
  parse_attachpoint, probe_types, Host, has_wildcard, make_attachpoint, without_new, parse_parts,
  probetype, expand_probe_name,
}
use bpftrace.Util.Strings.{str_join}
use bpftrace.Ast.AttachPoint.Lex.Quoted.{quoted, lex_attachpoint-quoted}

-- An attach point whose parts are written between double quotes, the first of them the name of a
-- kind of probe, is read by the parser of that kind, from these very parts, with the full name as
-- its provider.
parse_attachpoint-quoted :
    (n : ℕ) (host : Host) (listing has_iter ignore : Bool) (c : ℕ) (t : Bytes) (ps : List Bytes)
    → has_wildcard (c ∷ t) ≡ false
    → parse_attachpoint
        (suc n)
        host
        listing
        has_iter
        (make_attachpoint (str_join (map quoted ((c ∷ t) ∷ ps)) (b':' ∷ [])) ignore)
      ≡ some (
          without_new (
            parse_parts host listing has_iter
              (probetype (expand_probe_name (c ∷ t)))
              (record (make_attachpoint (str_join (map quoted ((c ∷ t) ∷ ps)) (b':' ∷ [])) ignore) {
                provider = expand_probe_name (c ∷ t);
              })
              ((c ∷ t) ∷ ps)))
unfolding parse_attachpoint probe_types
parse_attachpoint-quoted n host listing has_iter ignore c t ps h =
    rw (lex_attachpoint-quoted n host.params (c ∷ t) ps) (rw h refl)
