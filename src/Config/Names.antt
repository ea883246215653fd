-- ===== src/Config/Names.antt =====
-- The names of the options: `restore`, `lookup` and `is_unstable`.
use bpftrace.Util.Strings.{to_lower, lower_byte}
use bpftrace.Config.Options.{
  cache_user_symbols, cpp_demangle, lazy_symbolication, license, log_size, max_bpf_progs,
  max_cat_bytes, max_map_keys, max_probes, max_strlen, missing_probes, on_stack_limit,
  perf_rb_pages, print_maps_on_exit, show_debug_info, stack_mode, str_trunc_trailer, unstable_addr,
  unstable_import, unstable_macro, unstable_map_decl, unstable_tseries, unstable_typeinfo,
  use_blazesym, Key, field_type, key_name, all_keys, fits, unstable, enable,
}
use bpftrace.Prelude.{
  ℕ, ◌-◌, ◌≡◌, Bool, ◌&&◌, Option, none, some, List, [], ◌∷◌, ◌++◌, map, leb, if◌then◌else◌, length,
  drop, Bytes, codes, text_eq, starts_with, refl,
}
use bpftrace.Config.Parse.{is, Parsed, done, failed, rename_error, parse_error}

abbrev pub env_prefix : Bytes
env_prefix = codes "bpftrace_"

-- `restore`: the key in lower case, without the prefix of environment variables.
unfoldable pub restore : Bytes → Bytes
unfolding to_lower
restore original_key =
    let key = to_lower original_key in
    if starts_with key env_prefix then drop (length env_prefix) key else key

unfoldable pub find_key : Bytes → List Key → Option Key
find_key key [] = none
find_key key (k ∷ ks) = if text_eq (key_name k) key then some k else find_key key ks

-- `DEPRECATED`.
unfoldable pub deprecated : Bytes → Option Bytes
deprecated key =
    if is key "strlen"
    then some (codes "max_strlen")
    else if is key "no_cpp_demangle"
    then some (codes "cpp_demangle")
    else if is key "cat_bytes_max"
    then some (codes "max_cat_bytes")
    else if is key "map_keys_max"
    then some (codes "max_map_keys")
    else none

abbrev pub named : Bytes → Option Key → Option Bytes → Parsed Key
named original_key (some k) renamed = done k
named original_key none (some new_name) = failed (rename_error new_name)
named original_key none none = failed (parse_error original_key)

-- `lookup`. The keys that only the environment sets and the unknown ones give one error with two
-- messages.
unfoldable pub lookup : Bytes → Parsed Key
lookup original_key =
    named original_key (find_key (restore original_key) all_keys)
      (deprecated (restore original_key))

-- `is_unstable`.
unfoldable pub is_unstable : Bytes → Bool
is_unstable original_key = starts_with (restore original_key) (codes "unstable_")

abbrev upper_byte : ℕ → ℕ
upper_byte c = if leb b'a' c && leb c b'z' then c - 32 else c

-- The name of the environment variable of a key.
unfoldable pub env_name : Key → Bytes
env_name k = map upper_byte (env_prefix ++ key_name k)

-- Every option is found by its own name and by the name of its environment variable, and a name is
-- that of an unstable option exactly where the option's field is of that type.
pub lookup-names :
    (k : Key)
    → (lookup (key_name k) ≡ done k)
      × (lookup (env_name k) ≡ done k)
      × (is_unstable (key_name k) ≡ fits (field_type k) (unstable enable))
unfolding lookup restore find_key deprecated env_name is_unstable field_type to_lower lower_byte
lookup-names cache_user_symbols = (refl, refl, refl)
lookup-names cpp_demangle = (refl, refl, refl)
lookup-names lazy_symbolication = (refl, refl, refl)
lookup-names license = (refl, refl, refl)
lookup-names log_size = (refl, refl, refl)
lookup-names max_bpf_progs = (refl, refl, refl)
lookup-names max_cat_bytes = (refl, refl, refl)
lookup-names max_map_keys = (refl, refl, refl)
lookup-names max_probes = (refl, refl, refl)
lookup-names max_strlen = (refl, refl, refl)
lookup-names missing_probes = (refl, refl, refl)
lookup-names on_stack_limit = (refl, refl, refl)
lookup-names perf_rb_pages = (refl, refl, refl)
lookup-names print_maps_on_exit = (refl, refl, refl)
lookup-names show_debug_info = (refl, refl, refl)
lookup-names stack_mode = (refl, refl, refl)
lookup-names str_trunc_trailer = (refl, refl, refl)
lookup-names unstable_addr = (refl, refl, refl)
lookup-names unstable_import = (refl, refl, refl)
lookup-names unstable_macro = (refl, refl, refl)
lookup-names unstable_map_decl = (refl, refl, refl)
lookup-names unstable_tseries = (refl, refl, refl)
lookup-names unstable_typeinfo = (refl, refl, refl)
lookup-names use_blazesym = (refl, refl, refl)
