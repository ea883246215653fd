-- ===== src/Ast/AttachPoint/Userspace/Tests.antt =====
-- A traced process: the language of a probe is written over by the path of the executable.
use bpftrace.Prelude.{◌≡◌, refl, none, some, [], ◌∷◌, codes}
use bpftrace.Ast.AttachPoint.Userspace.{with_pid_exe, is_supported_lang}
use bpftrace.Ast.AttachPoint.{Host}

abbrev traced : Host
traced = record {
  pid = some 7;
  pid_exe = codes "/bin/app";
  params = [];
  which_so = λ s. none;
  watchpoint_binary_path = none;
  get_func_modules = λ s. [];
  expand_probetype_kernel = λ s. s ∷ [];
  expand_probetype_userspace = λ s. s ∷ [];
}

language_written_over :
    with_pid_exe traced (codes "uprobe" ∷ codes "cpp" ∷ codes "f" ∷ [])
    ≡ codes "uprobe" ∷ codes "/bin/app" ∷ codes "f" ∷ []
unfolding with_pid_exe is_supported_lang
language_written_over = refl
