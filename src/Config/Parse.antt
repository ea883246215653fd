-- ===== src/Config/Parse.antt =====
-- The parsers of values: `ConfigParser` for each type of field, from text and from a number.
use bpftrace.Config.Options.{
  a_number, a_flag, a_text, a_cache, a_missing, an_unstable, a_license, a_mode, FieldType, Value,
  CompatibleBpfLicense, gpl, license_of, cache, missing, mode, text, number, gpl_v2, flag, per_pid,
  ignore_missing, unstable, bpftrace_mode, gpl_ar, per_program, warn_missing, enable, perf_mode,
  no_cache, dual_bsd_gpl, error_missing, warn_unstable, raw_mode, error_unstable, dual_mit_gpl,
  dual_mpl_gpl,
}
use bpftrace.Util.IntParser.{Result, ok, err, to_uint}
use bpftrace.Prelude.{
  ℕ, Bool, true, false, not, ◌||◌, Option, none, some, List, [], ◌∷◌, ◌==◌, if◌then◌else◌, Bytes,
  codes, text_eq,
}
use Prim.Native.String.{String}
use bpftrace.Util.Strings.{to_lower, is_str_bool_truthy, is_str_bool_falsy}
use bpftrace.Util.Decimal.{to_string}

-- The errors that `set` returns, without their messages: the key of a parse error, the new name of
-- a renamed key, the text of a bad license.

pub data Error : Type 0 where
  parse_error : Bytes → Error
  rename_error : Bytes → Error
  license_error : Bytes → Error

pub data Parsed (A : Type 0) : Type 0 where
  done : A → Parsed A
  failed : Error → Parsed A

abbrev pub is : Bytes → String → Bool
is s word = text_eq s (codes word)

-- `BPF_LICENSE_STR`, and `get_license_str`.
unfoldable pub get_license_str : CompatibleBpfLicense → Bytes
get_license_str gpl = codes "GPL"
get_license_str gpl_v2 = codes "GPL v2"
get_license_str gpl_ar = codes "GPL and additional rights"
get_license_str dual_bsd_gpl = codes "Dual BSD/GPL"
get_license_str dual_mit_gpl = codes "Dual MIT/GPL"
get_license_str dual_mpl_gpl = codes "Dual MPL/GPL"

unfoldable pub find_license : Bytes → List CompatibleBpfLicense → Option CompatibleBpfLicense
unfolding get_license_str
find_license s [] = none
find_license s (l ∷ ls) = if text_eq s (get_license_str l) then some l else find_license s ls

abbrev pub licenses : List CompatibleBpfLicense
licenses = gpl ∷ gpl_v2 ∷ gpl_ar ∷ dual_bsd_gpl ∷ dual_mit_gpl ∷ dual_mpl_gpl ∷ []

abbrev pub found_license : Bytes → Option CompatibleBpfLicense → Parsed Value
found_license s none = failed (license_error s)
found_license s (some l) = done (license_of l)

abbrev pub parse_number : Bytes → Result ℕ → Parsed Value
parse_number key (ok v) = done (number v)
parse_number key (err e) = failed (parse_error key)

unfoldable pub parse_flag : Bytes → Bytes → Parsed Value
unfolding is_str_bool_truthy is_str_bool_falsy
parse_flag key s =
    if is_str_bool_truthy s
    then done (flag true)
    else if is_str_bool_falsy s
    then done (flag false)
    else failed (parse_error key)

-- `1` leaves the field as it is.
unfoldable pub parse_cache : Bytes → Value → Bytes → Parsed Value
unfolding to_lower
parse_cache key target original =
    let s = to_lower original in
    if is s "1"
    then done target
    else if is s "per_pid"
    then done (cache per_pid)
    else if is s "per_program"
    then done (cache per_program)
    else if is s "none" || is s "0"
    then done (cache no_cache)
    else failed (parse_error key)

unfoldable pub parse_missing : Bytes → Bytes → Parsed Value
unfolding to_lower
parse_missing key original =
    let s = to_lower original in
    if is s "ignore"
    then done (missing ignore_missing)
    else if is s "warn"
    then done (missing warn_missing)
    else if is s "error"
    then done (missing error_missing)
    else failed (parse_error key)

unfoldable pub parse_unstable : Bytes → Bytes → Parsed Value
unfolding to_lower is_str_bool_truthy is_str_bool_falsy
parse_unstable key original =
    let s = to_lower original in
    if is s "enable" || is_str_bool_truthy original
    then done (unstable enable)
    else if is s "warn"
    then done (unstable warn_unstable)
    else if is s "error" || is_str_bool_falsy original
    then done (unstable error_unstable)
    else failed (parse_error key)

unfoldable pub parse_mode : Bytes → Bytes → Parsed Value
parse_mode key s =
    if is s "bpftrace"
    then done (mode bpftrace_mode)
    else if is s "perf"
    then done (mode perf_mode)
    else if is s "raw"
    then done (mode raw_mode)
    else failed (parse_error key)

-- `AnyParser::string`, with the value that the field has.
unfoldable pub parse_text : FieldType → Bytes → Value → Bytes → Parsed Value
unfolding to_uint parse_flag parse_cache parse_missing parse_unstable parse_mode find_license
parse_text a_number key target s = parse_number key (to_uint s 0)
parse_text a_flag key target s = parse_flag key s
parse_text a_text key target s = done (text s)
parse_text a_cache key target s = parse_cache key target s
parse_text a_missing key target s = parse_missing key s
parse_text an_unstable key target s = parse_unstable key s
parse_text a_license key target s = found_license s (find_license s licenses)
parse_text a_mode key target s = parse_mode key s

abbrev pub to_text : ℕ → Bytes
to_text v = to_string v

-- `AnyParser::integer`.
unfoldable pub parse_integer_value : FieldType → Bytes → Value → ℕ → Parsed Value
parse_integer_value a_number key target v = done (number v)
parse_integer_value a_flag key target v = done (flag (not (v == 0)))
parse_integer_value a_text key target v = done (text (to_text v))
parse_integer_value a_cache key target v = if v == 0 then done (cache no_cache) else done target
parse_integer_value a_missing key target v = failed (parse_error key)
parse_integer_value an_unstable key target v =
    if not (v == 0) then done (unstable enable) else done (unstable error_unstable)
parse_integer_value a_license key target v = failed (license_error (to_text v))
parse_integer_value a_mode key target v = failed (parse_error key)
