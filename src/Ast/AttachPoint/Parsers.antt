-- ===== src/Ast/AttachPoint/Parsers.antt =====
-- src/ast/passes/attachpoint_passes.cpp: the parsers of one kind of probe each, for kernel probes
-- and those of bpftrace itself. The first part is the kind of the probe.
mod Frequency
pub mod Offsets
mod Tests
use bpftrace.Prelude.{
  ℕ, suc, ◌+◌, ◌-◌, ◌*◌, ◌/◌, ◌^◌, ap, Bool, true, not, ◌||◌, Option, none, some, List, [], ◌∷◌,
  ltb, leb, ◌==◌, if◌then◌else◌, length, set, drop, Bytes, codes, text_eq, starts_with,
}
use bpftrace.Prelude.Int.{
  ℤ, pos, negsuc, pos_part, neg_part, sub_ℕ, ◌+ℤ◌, ◌-ℤ◌, ◌*ℤ◌, ◌≤ℤ◌, ltb_ℤ, +ℤ_parts, -ℤ_parts,
  eq_of_parts, int_laws,
}
use bpftrace.Ast.AttachPoint.{Host, AttachPoint, Parsed, invalid_state, skip, ok_state}
use bpftrace.Util.IntParser.{Result, ok, to_uint, err}
use bpftrace.Util.Wildcard.{has_wildcard}
use bpftrace.Util.Strings.{split_string}

-- `argument_count_error`.
abbrev pub argument_count_error : AttachPoint → Parsed
argument_count_error ap = (invalid_state, ap)

-- The wrong number of parts: an attach point that a pattern has made is passed over.
abbrev pub skip_or_count : AttachPoint → Parsed
skip_or_count ap = if ap.ignore_invalid then (skip, ap) else argument_count_error ap

-- `begin` and `end`; `self`.
unfoldable pub special_parser : AttachPoint → List Bytes → Parsed
special_parser ap (p ∷ []) =
    if text_eq ap.provider (codes "self") then argument_count_error ap else (ok_state, ap)
special_parser ap (p ∷ a ∷ []) =
    if text_eq ap.provider (codes "self")
    then argument_count_error ap
    else if text_eq a (codes "*")
    then (ok_state, ap)
    else argument_count_error ap
special_parser ap (p ∷ a ∷ b ∷ []) =
    if text_eq ap.provider (codes "self")
    then (ok_state, record ap { target = a; func = b })
    else argument_count_error ap
special_parser ap _ = argument_count_error ap

-- `test_parser` and `benchmark_parser`.
unfoldable pub test_parser : AttachPoint → List Bytes → Parsed
test_parser ap (p ∷ name ∷ []) = (ok_state, record ap { target = name })
test_parser ap _ = argument_count_error ap

abbrev pub count_byte : ℕ → Bytes → ℕ
count_byte b [] = 0
count_byte b (c ∷ s) = if c == b then suc (count_byte b s) else count_byte b s

abbrev pub set_func_offset : AttachPoint → Result ℕ → Parsed
set_func_offset ap (ok n) = (ok_state, record ap { func_offset = n })
set_func_offset ap (err e) = (invalid_state, ap)

abbrev pub offset_of_parts : AttachPoint → List Bytes → Parsed
offset_of_parts ap (f ∷ o ∷ []) = set_func_offset (record ap { func = f }) (to_uint o 0)
offset_of_parts ap _ = (invalid_state, ap)

-- The case of a function with an offset, which has a plus sign.
unfoldable pub parse_offset : Bool → Bytes → AttachPoint → Parsed
parse_offset allow_offset text ap =
    if not allow_offset
    then (invalid_state, ap)
    else if not (count_byte b'+' text == 1)
    then (invalid_state, ap)
    else offset_of_parts ap (split_string text b'+' true)

unfoldable pub kprobe_func : Bool → Bytes → AttachPoint → Parsed
unfolding parse_offset
kprobe_func allow_offset text ap =
    if count_byte b'+' text == 0
    then (ok_state, record ap { func = text })
    else parse_offset allow_offset text ap

-- `kprobe_parser`; `kretprobe_parser` calls it without offsets.
unfoldable pub kprobe_parser : Bool → AttachPoint → List Bytes → Parsed
unfolding kprobe_func
kprobe_parser allow_offset ap (p ∷ f ∷ []) = kprobe_func allow_offset f ap
kprobe_parser allow_offset ap (p ∷ t ∷ f ∷ []) =
    kprobe_func allow_offset f (record ap { target = t })
kprobe_parser allow_offset ap _ = skip_or_count ap

unfoldable pub tracepoint_parser : AttachPoint → List Bytes → Parsed
tracepoint_parser ap (p ∷ f ∷ []) =
    if has_wildcard f
    then (ok_state, record ap { target = codes "*"; func = f })
    else skip_or_count ap
tracepoint_parser ap (p ∷ t ∷ f ∷ []) = (ok_state, record ap { target = t; func = f })
tracepoint_parser ap _ = skip_or_count ap

-- The conversion to `int64_t`.
abbrev pub to_int64 : ℕ → ℤ
to_int64 n = if ltb n (2 ^ 63) then pos n else negsuc (2 ^ 64 - 1 - n)

abbrev pub set_freq : AttachPoint → Result ℕ → Parsed
set_freq ap (ok n) = (ok_state, record ap { freq = to_int64 n })
set_freq ap (err e) = (invalid_state, ap)

-- A rate in nanoseconds, kept in microseconds.
abbrev pub set_rate : AttachPoint → Result ℕ → Parsed
set_rate ap (ok n) =
    if ltb n 1000
    then (invalid_state, ap)
    else (ok_state, record ap { target = codes "us"; freq = to_int64 (n / 1000) })
set_rate ap (err e) = (invalid_state, ap)

-- `frequency_parser`, of `profile` and `interval`.
unfoldable pub frequency_parser : AttachPoint → List Bytes → Parsed
frequency_parser ap (p ∷ rate ∷ []) =
    if has_wildcard rate
    then (ok_state, record ap { target = rate; freq = pos 0 })
    else set_rate ap (to_uint rate 0)
frequency_parser ap (p ∷ u ∷ rate ∷ []) = set_freq (record ap { target = u }) (to_uint rate 0)
frequency_parser ap _ = argument_count_error ap

-- `software_parser` and `hardware_parser`.
unfoldable pub software_parser : AttachPoint → List Bytes → Parsed
software_parser ap (p ∷ t ∷ []) = (ok_state, record ap { target = t })
software_parser ap (p ∷ t ∷ n ∷ []) =
    if text_eq n (codes "*")
    then (ok_state, record ap { target = t })
    else set_freq (record ap { target = t }) (to_uint n 0)
software_parser ap _ = skip_or_count ap

abbrev pub set_address : AttachPoint → Result ℕ → Parsed
set_address ap (ok n) = (ok_state, record ap { address = n })
set_address ap (err e) = (invalid_state, ap)

abbrev pub watched_argument : AttachPoint → Bytes → Parsed
watched_argument ap a =
    if leb (length a) 3 || not (starts_with a (codes "arg"))
    then (invalid_state, ap)
    else set_address ap (to_uint (drop 3 a) 0)

abbrev pub watched_parts : AttachPoint → List Bytes → Parsed
watched_parts ap (f ∷ a ∷ []) = watched_argument (record ap { func = f }) a
watched_parts ap _ = (invalid_state, ap)

-- The first argument: an address, or a function and one of its arguments.
unfoldable pub watched : AttachPoint → Bytes → Parsed
watched ap w =
    if count_byte b'+' w == 0
    then set_address ap (to_uint w 0)
    else watched_parts ap (split_string w b'+' true)

abbrev pub path_or : Option Bytes → Bytes
path_or none = []
path_or (some p) = p

abbrev pub set_length : Host → Bool → Bytes → AttachPoint → Result ℕ → Parsed
set_length host is_async m ap (err e) = (invalid_state, ap)
set_length host is_async m ap (ok n) = (
  ok_state,
  record ap { len = n; target = path_or host.watchpoint_binary_path; mode = m; async = is_async },
)

abbrev pub after_watched : Host → Bool → Bytes → Bytes → Parsed → Parsed
after_watched host is_async l m (ok_state, ap) = set_length host is_async m ap (to_uint l 0)
after_watched host is_async l m p = p

unfoldable pub watchpoint_parser : Host → Bool → AttachPoint → List Bytes → Parsed
unfolding watched
watchpoint_parser host is_async ap (p ∷ w ∷ l ∷ m ∷ []) =
    after_watched host is_async l m (watched ap w)
watchpoint_parser host is_async ap _ = argument_count_error ap

unfoldable pub raw_tracepoint_parser : AttachPoint → List Bytes → Parsed
raw_tracepoint_parser ap (p ∷ f ∷ []) = (ok_state, record ap { target = codes "*"; func = f })
raw_tracepoint_parser ap (p ∷ t ∷ f ∷ []) = (ok_state, record ap { target = t; func = f })
raw_tracepoint_parser ap _ = skip_or_count ap
