-- ===== src/Ast/AttachPoint/Parse.antt =====
-- src/ast/passes/attachpoint_passes.cpp: `AttachPointParser::parse`, and `AttachPoint::name` of
-- src/ast/ast.cpp.
mod Fresh
mod Turns
mod Ends
mod Tests
use bpftrace.ProbeTypes.{
  invalid, special, test, benchmark, kprobe, kretprobe, uprobe, uretprobe, usdt, tracepoint,
  profile, interval, software, hardware, watchpoint, asyncwatchpoint, fentry, fexit, iter,
  rawtracepoint, ProbeType, expand_probe_name, probetype,
}
use bpftrace.Ast.AttachPoint.{
  Parsed, AttachPoint, Host, make_attachpoint, invalid_state, is_some, ok_state, new_aps, skip,
  State,
}
use bpftrace.Prelude.{
  ℕ, zero, suc, ◌+◌, ◌-◌, ◌*◌, ◌/◌, ap, Bool, true, false, not, ◌||◌, Option, none, some, List, [],
  ◌∷◌, ◌++◌, map, if◌then◌else◌, set, Bytes, codes, text_eq,
}
use bpftrace.Util.Wildcard.{contains_byte, has_wildcard}
use bpftrace.Ast.AttachPoint.Lex.{lex_attachpoint, Lexed, parts, out_of_fuel, invalid_part}
use bpftrace.Ast.AttachPoint.Parsers.{
  special_parser, test_parser, kprobe_parser, tracepoint_parser, frequency_parser, software_parser,
  watchpoint_parser, raw_tracepoint_parser,
}
use bpftrace.Util.Strings.{erase_prefix}
use bpftrace.Ast.AttachPoint.Userspace.{uprobe_parser, usdt_parser, fentry_parser, iter_parser}

-- The switch on the kind of the probe. The flag is `has_iter_ap_`.
unfoldable pub parse_parts :
    Host → Bool → Bool → ProbeType → AttachPoint → List Bytes → Bool × Parsed
parse_parts host listing has_iter special ap ps = (has_iter, special_parser ap ps)
parse_parts host listing has_iter test ap ps = (has_iter, test_parser ap ps)
parse_parts host listing has_iter benchmark ap ps = (has_iter, test_parser ap ps)
parse_parts host listing has_iter kprobe ap ps = (has_iter, kprobe_parser true ap ps)
parse_parts host listing has_iter kretprobe ap ps = (has_iter, kprobe_parser false ap ps)
parse_parts host listing has_iter uprobe ap ps = (has_iter, uprobe_parser host true ap ps)
parse_parts host listing has_iter uretprobe ap ps = (has_iter, uprobe_parser host false ap ps)
parse_parts host listing has_iter usdt ap ps = (has_iter, usdt_parser host ap ps)
parse_parts host listing has_iter tracepoint ap ps = (has_iter, tracepoint_parser ap ps)
parse_parts host listing has_iter profile ap ps = (has_iter, frequency_parser ap ps)
parse_parts host listing has_iter interval ap ps = (has_iter, frequency_parser ap ps)
parse_parts host listing has_iter software ap ps = (has_iter, software_parser ap ps)
parse_parts host listing has_iter hardware ap ps = (has_iter, software_parser ap ps)
parse_parts host listing has_iter watchpoint ap ps = (has_iter, watchpoint_parser host false ap ps)
parse_parts host listing has_iter asyncwatchpoint ap ps =
    (has_iter, watchpoint_parser host true ap ps)
parse_parts host listing has_iter fentry ap ps = (has_iter, fentry_parser host listing ap ps)
parse_parts host listing has_iter fexit ap ps = (has_iter, fentry_parser host listing ap ps)
parse_parts host listing has_iter iter ap ps = iter_parser listing has_iter ap ps
parse_parts host listing has_iter rawtracepoint ap ps = (has_iter, raw_tracepoint_parser ap ps)
parse_parts host listing has_iter invalid ap ps = (has_iter, (invalid_state, ap))

-- What `parse_attachpoint` has done: the flag, its state and attach point, and the new attach points.
pub record Outcome : Type 0 where
  pub has_iter_ap : Bool
  pub parsed : Parsed
  pub new_attach_points : List AttachPoint

abbrev pub without_new : Bool × Parsed → Outcome
without_new (flag, p) = record { has_iter_ap = flag; parsed = p; new_attach_points = [] }

abbrev pub has_slash : List Bytes → Bool
has_slash (p ∷ q ∷ ps) = contains_byte q b'/'
has_slash _ = false

abbrev pub is_single : List Bytes → Bool
is_single (p ∷ []) = true
is_single _ = false

-- The kinds of probes that the first part stands for.
unfoldable pub probe_types : Host → Bytes → List Bytes → List Bytes
probe_types host front ps =
    let query = if is_single ps then codes "*" else front in
    if not (has_wildcard front)
    then front ∷ []
    else if is_some host.pid || has_slash ps
    then host.expand_probetype_userspace query
    else host.expand_probetype_kernel query

-- The attach points for more than one kind of probe.
abbrev pub new_attach_point : AttachPoint → List Bytes → Bytes → AttachPoint
new_attach_point ap ps probe_type =
    make_attachpoint
      (probe_type
        ++ (b':' ∷ (if is_single ps then ap.raw_input else (erase_prefix ap.raw_input).1)))
      true

unfoldable pub parse_types : Host → Bool → Bool → AttachPoint → List Bytes → List Bytes → Outcome
unfolding parse_parts
parse_types host listing has_iter ap ps [] = without_new (has_iter, (invalid_state, ap))
parse_types host listing has_iter ap ps (t ∷ []) =
    let provider = expand_probe_name t in
    without_new (
      parse_parts host listing has_iter (probetype provider) (record ap { provider = provider }) ps)
parse_types host listing has_iter ap ps ts = record {
  has_iter_ap = has_iter;
  parsed = (new_aps, ap);
  new_attach_points = map (new_attach_point ap ps) ts;
}

unfoldable pub parse_lexed : Host → Bool → Bool → AttachPoint → Lexed → Option Outcome
unfolding parse_types probe_types
parse_lexed host listing has_iter ap out_of_fuel = none
parse_lexed host listing has_iter ap invalid_part =
    some (without_new (has_iter, (invalid_state, ap)))
parse_lexed host listing has_iter ap (parts []) = some (without_new (has_iter, (invalid_state, ap)))
parse_lexed host listing has_iter ap (parts (p ∷ ps)) = some (
    if text_eq p []
    then without_new (has_iter, (ok_state, record ap { provider = [] }))
    else parse_types host listing has_iter ap (p ∷ ps) (probe_types host p (p ∷ ps)))

-- `parse_attachpoint`, with fuel for the lexer. `none`: out of fuel.
unfoldable pub parse_attachpoint : ℕ → Host → Bool → Bool → AttachPoint → Option Outcome
unfolding parse_lexed
parse_attachpoint n host listing has_iter ap =
    parse_lexed host listing has_iter ap (lex_attachpoint n host.params ap.raw_input)

-- The variables of the loop of `parse` over the attach points of a probe: how many failed, the
-- flag, those it has been through, and those it has not.
pub record Loop : Type 0 where
  pub failed : ℕ
  pub iter_flag : Bool
  pub done : List AttachPoint
  pub todo : List AttachPoint

abbrev pub advance_as : State → Loop → List AttachPoint → Outcome → Loop
advance_as ok_state s rest o = record {
  failed = s.failed;
  iter_flag = o.has_iter_ap;
  done = s.done ++ (o.parsed.1 ∷ []);
  todo = rest;
}
advance_as invalid_state s rest o = record {
  failed = suc s.failed;
  iter_flag = o.has_iter_ap;
  done = s.done ++ (o.parsed.1 ∷ []);
  todo = rest;
}
advance_as new_aps s rest o = record {
  failed = s.failed;
  iter_flag = o.has_iter_ap;
  done = s.done;
  todo = rest ++ o.new_attach_points;
}
advance_as skip s rest o = record {
  failed = s.failed;
  iter_flag = o.has_iter_ap;
  done = s.done;
  todo = rest;
}

abbrev pub advance : Loop → List AttachPoint → Outcome → Loop
advance s rest o = advance_as o.parsed.0 s rest o

abbrev pub advanced : Loop → List AttachPoint → Option Outcome → Option Loop
advanced s rest none = none
advanced s rest (some o) = some (advance s rest o)

-- One turn of the loop.
unfoldable pub parse_step : ℕ → Host → Bool → Loop → AttachPoint → List AttachPoint → Option Loop
unfolding parse_attachpoint
parse_step n host listing s ap rest =
    advanced s rest (parse_attachpoint n host listing s.iter_flag ap)

abbrev pub then_loop : (Loop → Option Loop) → Option Loop → Option Loop
then_loop f none = none
then_loop f (some s) = f s

-- The loop, with fuel for its turns; `n` is that of the lexer.
unfoldable pub parse_loop : ℕ → ℕ → Host → Bool → Loop → List AttachPoint → Option Loop
unfolding parse_step
parse_loop m n host listing s [] = some s
parse_loop zero n host listing s (ap ∷ rest) = none
parse_loop (suc m) n host listing s (ap ∷ rest) =
    then_loop (λ t. parse_loop m n host listing t t.todo) (parse_step n host listing s ap rest)

abbrev pub with_provider : List AttachPoint → List AttachPoint
with_provider [] = []
with_provider (a ∷ aps) = if text_eq a.provider [] then with_provider aps else a ∷ with_provider aps

abbrev pub no_attach_points : List AttachPoint → ℕ
no_attach_points [] = 1
no_attach_points (a ∷ aps) = 0

abbrev pub finish_probe : Option Loop → Option (ℕ × List AttachPoint)
finish_probe none = none
finish_probe (some s) =
    let kept = with_provider s.done in some (s.failed + no_attach_points kept, kept)

-- The body of the loop over the probes: what failed, and the probe's attach points.
unfoldable pub parse_probe : ℕ → ℕ → Host → Bool → List AttachPoint → Option (ℕ × List AttachPoint)
unfolding parse_loop
parse_probe m n host listing aps = finish_probe (
    parse_loop m n host listing (record { failed = 0; iter_flag = false; done = []; todo = aps })
      aps)
