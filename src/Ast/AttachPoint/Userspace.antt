-- ===== src/Ast/AttachPoint/Userspace.antt =====
-- src/ast/passes/attachpoint_passes.cpp: the parsers of probes in programs, and of those that
-- depend on functions of the kernel.
mod Paths
mod Tests
use bpftrace.Prelude.{
  ℕ, ◌+◌, ◌-◌, ◌*◌, ◌/◌, ap, Bool, true, not, ◌&&◌, ◌||◌, Option, none, some, List, [], ◌∷◌, ◌==◌,
  if◌then◌else◌, set, take, drop, Bytes, codes, text_eq, starts_with,
}
use bpftrace.Ast.AttachPoint.{AttachPoint, Host, is_some, Parsed, ok_state, invalid_state, skip}
use bpftrace.Util.IntParser.{Result, err, ok, to_uint}
use bpftrace.Util.Wildcard.{has_wildcard}
use bpftrace.Ast.AttachPoint.Parsers.{skip_or_count, count_byte, parse_offset}

-- src/ast/helpers.cpp: `is_supported_lang`.
unfoldable pub is_supported_lang : Bytes → Bool
is_supported_lang l = text_eq l (codes "cpp")

-- Where a process is traced the target may be left out. Behind a language, the target takes its place.
unfoldable pub with_pid_exe : Host → List Bytes → List Bytes
with_pid_exe host (p ∷ f ∷ []) = if is_some host.pid then p ∷ host.pid_exe ∷ f ∷ [] else p ∷ f ∷ []
with_pid_exe host (p ∷ l ∷ f ∷ []) =
    if is_some host.pid && is_supported_lang l then p ∷ host.pid_exe ∷ f ∷ [] else p ∷ l ∷ f ∷ []
with_pid_exe host ps = ps

abbrev pub unless_empty : Bytes → Option Bytes → Bytes
unless_empty t none = t
unless_empty t (some path) = if text_eq path [] then t else path

-- The target, or the library of which it is the name.
unfoldable pub find_target : Host → Bytes → Bytes
find_target host t =
    if not (has_wildcard t) && starts_with t (codes "lib")
    then unless_empty t (host.which_so (drop 3 t))
    else t

abbrev pub address_or_func : AttachPoint → Bytes → Result ℕ → Parsed
address_or_func ap text (err e) = (ok_state, record ap { address = 0; func = text })
address_or_func ap text (ok n) =
    if has_wildcard ap.target then (invalid_state, ap) else (ok_state, record ap { address = n })

unfoldable pub uprobe_func : Bool → Bool → Bytes → AttachPoint → Parsed
uprobe_func allow_offset allow_abs_addr text ap =
    if not (count_byte b'+' text == 0)
    then parse_offset allow_offset text ap
    else if allow_abs_addr
    then address_or_func ap text (to_uint text 0)
    else (ok_state, record ap { func = text })

unfoldable pub uprobe_parts : Host → Bool → Bool → AttachPoint → List Bytes → Parsed
unfolding uprobe_func
uprobe_parts host allow_offset allow_abs_addr ap (p ∷ t ∷ f ∷ []) =
    uprobe_func allow_offset allow_abs_addr f (record ap { target = find_target host t })
uprobe_parts host allow_offset allow_abs_addr ap (p ∷ t ∷ l ∷ f ∷ []) =
    uprobe_func allow_offset allow_abs_addr f (record ap { lang = l; target = find_target host t })
uprobe_parts host allow_offset allow_abs_addr ap _ = skip_or_count ap

-- `uprobe_parser`; `uretprobe_parser` calls it without offsets.
unfoldable pub uprobe_parser : Host → Bool → AttachPoint → List Bytes → Parsed
unfolding uprobe_parts
uprobe_parser host allow_offset ap ps =
    uprobe_parts host allow_offset true ap (with_pid_exe host ps)

unfoldable pub usdt_parser : Host → AttachPoint → List Bytes → Parsed
usdt_parser host ap (p ∷ f ∷ []) =
    if is_some host.pid then (ok_state, record ap { target = []; func = f }) else skip_or_count ap
usdt_parser host ap (p ∷ t ∷ f ∷ []) = (ok_state, record ap { target = t; func = f })
usdt_parser host ap (p ∷ t ∷ n ∷ f ∷ []) = (ok_state, record ap { target = t; ns = n; func = f })
usdt_parser host ap _ = skip_or_count ap

abbrev pub set_prog_id : AttachPoint → Result ℕ → Parsed
set_prog_id ap (ok n) = (ok_state, record ap { bpf_prog_id = n })
set_prog_id ap (err e) = (invalid_state, ap)

-- The modules that a function is in.
abbrev pub set_module : Bool → AttachPoint → List Bytes → Parsed
set_module listing ap [] = (ok_state, ap)
set_module listing ap (m ∷ []) = (ok_state, record ap { target = m })
set_module listing ap (m ∷ k ∷ ms) =
    if listing then (ok_state, record ap { target = codes "*" }) else (invalid_state, ap)

unfoldable pub fentry_parser : Host → Bool → AttachPoint → List Bytes → Parsed
fentry_parser host listing ap (p ∷ f ∷ []) =
    if text_eq f (codes "bpf")
    then (invalid_state, record ap { target = f })
    else if has_wildcard f
    then (ok_state, record ap { func = f; target = codes "*" })
    else set_module listing (record ap { func = f }) (host.get_func_modules f)
fentry_parser host listing ap (p ∷ t ∷ f ∷ []) = (ok_state, record ap { target = t; func = f })
fentry_parser host listing ap (p ∷ t ∷ i ∷ f ∷ []) =
    if not (text_eq t (codes "bpf"))
    then (invalid_state, ap)
    else if text_eq i (codes "*")
    then (ok_state, record ap { target = t; func = f })
    else set_prog_id (record ap { target = t; func = f }) (to_uint i 0)
fentry_parser host listing ap _ = skip_or_count ap

-- `iter_parser`, with the flag `has_iter_ap_`, which it sets.
abbrev pub set_iter : Bool → Bool → Bool → AttachPoint → AttachPoint → Bool × Parsed
set_iter listing has_iter_ap wildcard ap found =
    if not listing && has_iter_ap
    then (has_iter_ap, (invalid_state, ap))
    else if not listing && wildcard
    then (has_iter_ap, (invalid_state, ap))
    else (true, (ok_state, found))

abbrev pub skip_or_invalid : AttachPoint → Parsed
skip_or_invalid ap = if ap.ignore_invalid then (skip, ap) else (invalid_state, ap)

unfoldable pub iter_parser : Bool → Bool → AttachPoint → List Bytes → Bool × Parsed
iter_parser listing has_iter_ap ap (p ∷ f ∷ []) =
    set_iter listing has_iter_ap (has_wildcard f) ap (record ap { func = f })
iter_parser listing has_iter_ap ap (p ∷ f ∷ q ∷ []) =
    set_iter listing has_iter_ap (has_wildcard f || has_wildcard q) ap
      (record ap { func = f; pin = q })
iter_parser listing has_iter_ap ap _ = (has_iter_ap, skip_or_invalid ap)
