-- ===== src/Ast/AttachPoint/Name/Tests.antt =====
-- Printing attach points, and the theorem there.
use bpftrace.Util.Decimal.{digits, to_string}
use bpftrace.Prelude.{◌≡◌, refl, false, none, some, [], ◌∷◌, arith, codes}
use bpftrace.Ast.AttachPoint.{AttachPoint, Host, make_attachpoint, ok_state}
use bpftrace.Ast.AttachPoint.Parse.{parse_attachpoint, without_new}
use bpftrace.Ast.AttachPoint.Name.{name}
use bpftrace.Ast.AttachPoint.Name.Kprobe.{kprobe_point, parse_attachpoint-name}

abbrev plain_host : Host
plain_host = record {
  pid = none;
  pid_exe = [];
  params = [];
  which_so = λ s. none;
  watchpoint_binary_path = none;
  get_func_modules = λ s. [];
  expand_probetype_kernel = λ s. s ∷ [];
  expand_probetype_userspace = λ s. s ∷ [];
}

abbrev f_at_four : AttachPoint
f_at_four = kprobe_point [] (codes "m") (codes "f") 4

printed : name f_at_four ≡ codes "kprobe:m:f+4"
unfolding name to_string digits
printed = refl

parse_attachpoint-name_example :
    parse_attachpoint 1 plain_host false false (make_attachpoint (name f_at_four) false)
    ≡ some
        (without_new (false, (ok_state, kprobe_point (name f_at_four) (codes "m") (codes "f") 4)))
parse_attachpoint-name_example =
    parse_attachpoint-name 0 plain_host false false (codes "m") b'f' [] 4
      (omega arith, omega arith, omega arith, tt) (omega arith, omega arith, omega arith, tt)
      (omega arith, tt) (omega arith)
