-- ===== src/Ast/AttachPoint/Parse/Tests.antt =====
-- Attach points of a host without a traced process, and the theorem there.
use bpftrace.Util.Wildcard.{has_wildcard}
use bpftrace.Prelude.{refl, false, none, [], ◌∷◌, codes, ◌≢◌, arith}
use bpftrace.Ast.AttachPoint.{Host, make_attachpoint}
use bpftrace.Ast.AttachPoint.Parse.{parse_probe}
use bpftrace.Ast.AttachPoint.Parse.Turns.{Names}
use bpftrace.Ast.AttachPoint.Lex.Parameters.{dollars}
use bpftrace.Ast.AttachPoint.Parse.Ends.{turns, parse_probe-ends}

abbrev plain_host : Host
plain_host = record {
  pid = none;
  pid_exe = [];
  params = [];
  which_so = λ s. none;
  watchpoint_binary_path = none;
  get_func_modules = λ s. [];
  expand_probetype_kernel = λ s. s ∷ [];
  expand_probetype_userspace = λ s. s ∷ [];
}

-- One kind of probe for each pattern.
abbrev one_kind : Host
one_kind = record plain_host {
  expand_probetype_kernel = λ s. codes "t" ∷ [];
  expand_probetype_userspace = λ s. codes "t" ∷ [];
}

one-Names : Names (codes "t" ∷ [])
unfolding has_wildcard
one-Names = ((omega arith, omega arith, omega arith, tt), refl, tt)

parse_probe-ends_example :
    parse_probe
      (turns 1 (make_attachpoint (codes "k*:f") false ∷ []))
      1
      one_kind
      false
      (make_attachpoint (codes "k*:f") false ∷ [])
    ≢ none
unfolding dollars
parse_probe-ends_example =
    parse_probe-ends 1 one_kind tt false 1 (λ q w. (one-Names, omega arith))
      (λ q w. (one-Names, omega arith)) (make_attachpoint (codes "k*:f") false ∷ [])
      (omega arith, tt)
