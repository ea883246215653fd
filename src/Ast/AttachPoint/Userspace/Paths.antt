-- ===== src/Ast/AttachPoint/Userspace/Paths.antt =====
-- Probes in a program that is traced as a process.
use bpftrace.Prelude.{◌≡◌, refl, Bool, true, [], ◌∷◌, Bytes}
use bpftrace.Ast.AttachPoint.Userspace.{
  uprobe_parser, with_pid_exe, Host, AttachPoint, is_some, is_supported_lang,
}

-- Where a process is traced, a supported language in the place of the target makes no difference:
-- the path of the executable is written over it, as if the language had been left out.
uprobe_parser-language :
    (host : Host) (allow_offset : Bool) (point : AttachPoint) (p l f : Bytes)
    → is_some host.pid ≡ true
    → is_supported_lang l ≡ true
    → uprobe_parser host allow_offset point (p ∷ l ∷ f ∷ [])
      ≡ uprobe_parser host allow_offset point (p ∷ f ∷ [])
unfolding uprobe_parser with_pid_exe
uprobe_parser-language host allow_offset point p l f h s = rw h (rw s refl)
