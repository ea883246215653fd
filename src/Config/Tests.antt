-- ===== src/Config/Tests.antt =====
-- The theorems on the configuration at concrete options.
use bpftrace.Config.Names.{lookup, env_name, restore, find_key, deprecated}
use bpftrace.Prelude.{
  ◌≡◌, refl, true, false, Option, none, some, if◌then◌else◌, Bytes, codes, text_eq, arith,
}
use bpftrace.Config.Setting.{WellTyped, set_text, update, license-round_trip}
use bpftrace.Config.Environment.{From, load_environment, load_environment-From, load_keys}
use bpftrace.Config.Options.{
  Config, make_config, cpp_demangle, field_type, flag, a_license, license_of, gpl, dual_bsd_gpl,
}
use bpftrace.Config.Parse.{done, parse_text, parse_flag, get_license_str}
use bpftrace.Util.Strings.{to_lower, lower_byte, is_str_bool_truthy, is_str_bool_falsy}

abbrev start : Config
start = make_config true true false

abbrev no_demangle : Config
no_demangle = update cpp_demangle (flag false) start

set_demangle : set_text (codes "BPFTRACE_CPP_DEMANGLE") (codes "0") start ≡ done no_demangle
unfolding set_text lookup restore find_key deprecated to_lower lower_byte parse_text parse_flag
    is_str_bool_truthy is_str_bool_falsy field_type
set_demangle = refl

start-WellTyped : WellTyped start
unfolding field_type make_config
start-WellTyped k = ground arith

abbrev one_variable : Bytes → Option Bytes
one_variable name = if text_eq name (codes "BPFTRACE_CPP_DEMANGLE") then some (codes "0") else none

load_one : load_environment one_variable start ≡ done no_demangle
unfolding load_environment load_keys env_name set_text lookup restore find_key deprecated to_lower
    lower_byte parse_text parse_flag is_str_bool_truthy is_str_bool_falsy field_type
load_one = refl

load_environment-From_example :
    From cpp_demangle
      (one_variable (env_name cpp_demangle))
      (start cpp_demangle)
      (no_demangle cpp_demangle)
load_environment-From_example =
    load_environment-From one_variable start no_demangle cpp_demangle load_one

license-round_trip_example :
    parse_text a_license (codes "license") (license_of gpl) (get_license_str dual_bsd_gpl)
    ≡ done (license_of dual_bsd_gpl)
license-round_trip_example = license-round_trip dual_bsd_gpl (codes "license") (license_of gpl)
