-- ===== src/Ast/AttachPoint/Check/Tests.antt =====
-- The checks of a small program, and the theorem there.
use bpftrace.Prelude.{◌≤◌, ◌≡◌, refl, false, none, List, [], ◌∷◌, Bytes, codes}
use bpftrace.Ast.AttachPoint.Check.Once.{count_provider, Distinct, check_all-once}
use bpftrace.Ast.AttachPoint.{AttachPoint, make_attachpoint}
use bpftrace.Ast.AttachPoint.Rules.{CheckHost}
use bpftrace.Ast.AttachPoint.Check.{check_all, check_attach_point, no_probes}

abbrev anywhere : CheckHost
anywhere = record {
  listing = false;
  pid = none;
  has_child = false;
  has_btf_data = false;
  iters = [];
  uprobe_paths = λ t. none;
  usdt_paths = λ t. [];
  argument_registers = 6;
  watchpoint_modes = [];
}

abbrev of_provider : Bytes → Bytes → AttachPoint
of_provider p t = record (make_attachpoint [] false) { provider = p; target = t }

abbrev small_program : List AttachPoint
small_program =
    of_provider (codes "begin") []
    ∷ of_provider (codes "test") (codes "a")
    ∷ of_provider (codes "test") (codes "b")
    ∷ of_provider (codes "end") []
    ∷ []

no_errors : (check_all anywhere no_probes small_program).1 ≡ []
unfolding check_all check_attach_point
no_errors = refl

check_all-once_example :
    (count_provider (codes "begin") small_program ≤ 1)
    × (count_provider (codes "end") small_program ≤ 1)
    × Distinct [] (codes "a" ∷ codes "b" ∷ [])
check_all-once_example = check_all-once anywhere small_program no_errors
