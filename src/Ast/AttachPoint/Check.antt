-- ===== src/Ast/AttachPoint/Check.antt =====
-- src/ast/passes/attachpoint_passes.cpp: `AttachPointChecker`, which also counts what may be there
-- only once. The lists of USDT probes that it has read ahead of time are left out.
mod Once
mod Tests
use bpftrace.Prelude.{
  ◌+◌, ◌-◌, ◌/◌, Bool, true, false, not, ◌&&◌, ◌||◌, List, [], ◌∷◌, ◌++◌, if◌then◌else◌, Bytes,
  codes, text_eq,
}
use bpftrace.Ast.AttachPoint.Rules.{
  is_one_of, CheckHost, CheckError, require, is_text, has_target, no_function, check_user,
  check_usdt, no_target, no_btf, check_timed, check_event, check_watch, repeated, bad_signal,
  bad_trigger, no_name, unknown_iter, bad_provider,
}
use bpftrace.Ast.AttachPoint.{AttachPoint}
use bpftrace.Ast.AttachPoint.Events.{sw_probe_list, hw_probe_list, signals}

-- The checker's own state.
pub record Checker : Type 0 where
  pub has_begin_probe : Bool
  pub has_end_probe : Bool
  pub test_names : List Bytes
  pub benchmark_names : List Bytes

abbrev pub Checked : Type 0
Checked = Checker × AttachPoint × List CheckError

-- The branches of the checks, by the provider.
pub data Provider : Type 0 where
  kernel_probe user_probe usdt_probe trace_probe raw_probe timed_probe : Provider
  software_probe hardware_probe watch_probe begin_probe end_probe self_probe : Provider
  test_probe bench_probe function_probe iter_probe other_probe : Provider

unfoldable pub provider_of : Bytes → Provider
provider_of p =
    if text_eq p (codes "kprobe") || text_eq p (codes "kretprobe")
    then kernel_probe
    else if text_eq p (codes "uprobe") || text_eq p (codes "uretprobe")
    then user_probe
    else if text_eq p (codes "usdt")
    then usdt_probe
    else if text_eq p (codes "tracepoint")
    then trace_probe
    else if text_eq p (codes "rawtracepoint")
    then raw_probe
    else if text_eq p (codes "profile") || text_eq p (codes "interval")
    then timed_probe
    else if text_eq p (codes "software")
    then software_probe
    else if text_eq p (codes "watchpoint") || text_eq p (codes "asyncwatchpoint")
    then watch_probe
    else if text_eq p (codes "hardware")
    then hardware_probe
    else if text_eq p (codes "begin")
    then begin_probe
    else if text_eq p (codes "end")
    then end_probe
    else if text_eq p (codes "self")
    then self_probe
    else if text_eq p (codes "test")
    then test_probe
    else if text_eq p (codes "bench")
    then bench_probe
    else if text_eq p (codes "fentry") || text_eq p (codes "fexit")
    then function_probe
    else if text_eq p (codes "iter")
    then iter_probe
    else other_probe

abbrev pub keep : Checker → AttachPoint × List CheckError → Checked
keep s (a, errors) = (s, a, errors)

abbrev pub no_place : AttachPoint → List CheckError
no_place a = require (not (is_text a.target || is_text a.func)) has_target

-- `AttachPointChecker::visit`.
unfoldable pub check_as : Provider → CheckHost → Checker → AttachPoint → Checked
check_as kernel_probe h s a = (s, a, require (is_text a.func) no_function)
check_as user_probe h s a = keep s (check_user h a)
check_as usdt_probe h s a = keep s (check_usdt h a)
check_as trace_probe h s a = (s, a, require (is_text a.target && is_text a.func) no_target)
check_as raw_probe h s a =
    (s, a, require (is_text a.func) no_function ++ require (h.listing || h.has_btf_data) no_btf)
check_as timed_probe h s a = (s, a, check_timed h a)
check_as software_probe h s a = (s, a, check_event sw_probe_list h a)
check_as hardware_probe h s a = (s, a, check_event hw_probe_list h a)
check_as watch_probe h s a = keep s (check_watch h a)
check_as begin_probe h s a =
    (record s { has_begin_probe = true }, a, no_place a ++ require (not s.has_begin_probe) repeated)
check_as end_probe h s a =
    (record s { has_end_probe = true }, a, no_place a ++ require (not s.has_end_probe) repeated)
check_as self_probe h s a = (
  s,
  a,
  if text_eq a.target (codes "signal")
      then require (is_one_of a.func signals) bad_signal
      else bad_trigger ∷ [],
)
check_as test_probe h s a = (
  record s { test_names = a.target ∷ s.test_names },
  a,
  require (is_text a.target) no_name ++ require (not (is_one_of a.target s.test_names)) repeated,
)
check_as bench_probe h s a = (
  record s { benchmark_names = a.target ∷ s.benchmark_names },
  a,
  require (is_text a.target) no_name
      ++ require (not (is_one_of a.target s.benchmark_names)) repeated,
)
check_as function_probe h s a = (s, a, require (is_text a.func) no_function)
check_as iter_probe h s a = (
  s,
  a,
  require (h.listing || (not h.has_btf_data || is_one_of a.func h.iters)) unknown_iter
      ++ require (is_text a.func) no_function,
)
check_as other_probe h s a = (s, a, bad_provider ∷ [])

unfoldable pub check_attach_point : CheckHost → Checker → AttachPoint → Checked
unfolding check_as provider_of
check_attach_point h s a = check_as (provider_of a.provider) h s a

abbrev pub no_probes : Checker
no_probes = record {
  has_begin_probe = false;
  has_end_probe = false;
  test_names = [];
  benchmark_names = [];
}

-- The visits of all attach points of a program, with the errors of all.
unfoldable pub check_all : CheckHost → Checker → List AttachPoint → Checker × List CheckError
unfolding check_attach_point
check_all h s [] = (s, [])
check_all h s (a ∷ rest) =
    let (t, b, errors) = check_attach_point h s a in
    let (u, more) = check_all h t rest in (u, errors ++ more)
