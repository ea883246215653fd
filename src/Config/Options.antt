-- ===== src/Config/Options.antt =====
-- The options of `Config`, the values that they take, and their defaults.
use bpftrace.Prelude.{ℕ, Bool, true, false, not, ◌||◌, List, [], ◌∷◌, if◌then◌else◌, Bytes, codes}

-- The keys of `CONFIG_KEY_MAP`. A key stands for the field that its parser points at.
pub data Key : Type 0 where
  cache_user_symbols cpp_demangle lazy_symbolication license : Key
  log_size max_bpf_progs max_cat_bytes max_map_keys : Key
  max_probes max_strlen missing_probes on_stack_limit : Key
  perf_rb_pages print_maps_on_exit show_debug_info stack_mode : Key
  str_trunc_trailer unstable_addr unstable_import unstable_macro : Key
  unstable_map_decl unstable_tseries unstable_typeinfo use_blazesym : Key

-- `std::map` visits the keys in this order.
abbrev pub all_keys : List Key
all_keys =
    cache_user_symbols ∷ cpp_demangle ∷ lazy_symbolication ∷ license ∷ log_size ∷ max_bpf_progs
    ∷ max_cat_bytes ∷ max_map_keys ∷ max_probes ∷ max_strlen ∷ missing_probes ∷ on_stack_limit
    ∷ perf_rb_pages ∷ print_maps_on_exit ∷ show_debug_info ∷ stack_mode ∷ str_trunc_trailer
    ∷ unstable_addr ∷ unstable_import ∷ unstable_macro ∷ unstable_map_decl ∷ unstable_tseries
    ∷ unstable_typeinfo ∷ use_blazesym ∷ []

abbrev pub key_name : Key → Bytes
key_name cache_user_symbols = codes "cache_user_symbols"
key_name cpp_demangle = codes "cpp_demangle"
key_name lazy_symbolication = codes "lazy_symbolication"
key_name license = codes "license"
key_name log_size = codes "log_size"
key_name max_bpf_progs = codes "max_bpf_progs"
key_name max_cat_bytes = codes "max_cat_bytes"
key_name max_map_keys = codes "max_map_keys"
key_name max_probes = codes "max_probes"
key_name max_strlen = codes "max_strlen"
key_name missing_probes = codes "missing_probes"
key_name on_stack_limit = codes "on_stack_limit"
key_name perf_rb_pages = codes "perf_rb_pages"
key_name print_maps_on_exit = codes "print_maps_on_exit"
key_name show_debug_info = codes "show_debug_info"
key_name stack_mode = codes "stack_mode"
key_name str_trunc_trailer = codes "str_trunc_trailer"
key_name unstable_addr = codes "unstable_addr"
key_name unstable_import = codes "unstable_import"
key_name unstable_macro = codes "unstable_macro"
key_name unstable_map_decl = codes "unstable_map_decl"
key_name unstable_tseries = codes "unstable_tseries"
key_name unstable_typeinfo = codes "unstable_typeinfo"
key_name use_blazesym = codes "use_blazesym"

unfoldable pub key_index : Key → ℕ
key_index cache_user_symbols = 0
key_index cpp_demangle = 1
key_index lazy_symbolication = 2
key_index license = 3
key_index log_size = 4
key_index max_bpf_progs = 5
key_index max_cat_bytes = 6
key_index max_map_keys = 7
key_index max_probes = 8
key_index max_strlen = 9
key_index missing_probes = 10
key_index on_stack_limit = 11
key_index perf_rb_pages = 12
key_index print_maps_on_exit = 13
key_index show_debug_info = 14
key_index stack_mode = 15
key_index str_trunc_trailer = 16
key_index unstable_addr = 17
key_index unstable_import = 18
key_index unstable_macro = 19
key_index unstable_map_decl = 20
key_index unstable_tseries = 21
key_index unstable_typeinfo = 22
key_index use_blazesym = 23

pub data UserSymbolCacheType : Type 0 where
  per_pid per_program no_cache : UserSymbolCacheType

pub data ConfigMissingProbes : Type 0 where
  ignore_missing warn_missing error_missing : ConfigMissingProbes

pub data ConfigUnstable : Type 0 where
  enable warn_unstable error_unstable : ConfigUnstable

pub data CompatibleBpfLicense : Type 0 where
  gpl gpl_v2 gpl_ar dual_bsd_gpl dual_mit_gpl dual_mpl_gpl : CompatibleBpfLicense

pub data StackMode : Type 0 where
  bpftrace_mode perf_mode raw_mode : StackMode

-- A value of a field.
pub data Value : Type 0 where
  number : ℕ → Value
  flag : Bool → Value
  text : Bytes → Value
  cache : UserSymbolCacheType → Value
  missing : ConfigMissingProbes → Value
  unstable : ConfigUnstable → Value
  license_of : CompatibleBpfLicense → Value
  mode : StackMode → Value

-- The type of a field, which selects its `ConfigParser`.
pub data FieldType : Type 0 where
  a_number a_flag a_text a_cache a_missing an_unstable a_license a_mode : FieldType

unfoldable pub field_type : Key → FieldType
field_type cache_user_symbols = a_cache
field_type cpp_demangle = a_flag
field_type lazy_symbolication = a_flag
field_type license = a_license
field_type log_size = a_number
field_type max_bpf_progs = a_number
field_type max_cat_bytes = a_number
field_type max_map_keys = a_number
field_type max_probes = a_number
field_type max_strlen = a_number
field_type missing_probes = a_missing
field_type on_stack_limit = a_number
field_type perf_rb_pages = a_number
field_type print_maps_on_exit = a_flag
field_type show_debug_info = a_flag
field_type stack_mode = a_mode
field_type str_trunc_trailer = a_text
field_type unstable_addr = an_unstable
field_type unstable_import = an_unstable
field_type unstable_macro = an_unstable
field_type unstable_map_decl = an_unstable
field_type unstable_tseries = an_unstable
field_type unstable_typeinfo = an_unstable
field_type use_blazesym = a_flag

abbrev pub fits : FieldType → Value → Bool
fits a_number (number v) = true
fits a_flag (flag v) = true
fits a_text (text v) = true
fits a_cache (cache v) = true
fits a_missing (missing v) = true
fits an_unstable (unstable v) = true
fits a_license (license_of v) = true
fits a_mode (mode v) = true
fits _ _ = false

-- `Config`: the values of its fields.
abbrev pub Config : Type 0
Config = Key → Value

-- The constructor, with `HAVE_BLAZESYM` and whether address-space layout randomisation is on.
unfoldable pub make_config : Bool → Bool → Bool → Config
make_config blazesym aslr has_cmd cache_user_symbols =
    cache (if has_cmd || not aslr then per_program else per_pid)
make_config blazesym aslr has_cmd cpp_demangle = flag true
make_config blazesym aslr has_cmd lazy_symbolication = flag true
make_config blazesym aslr has_cmd license = license_of gpl
make_config blazesym aslr has_cmd log_size = number 1000000
make_config blazesym aslr has_cmd max_bpf_progs = number 1024
make_config blazesym aslr has_cmd max_cat_bytes = number 10240
make_config blazesym aslr has_cmd max_map_keys = number 4096
make_config blazesym aslr has_cmd max_probes = number 1024
make_config blazesym aslr has_cmd max_strlen = number 1024
make_config blazesym aslr has_cmd missing_probes = missing error_missing
make_config blazesym aslr has_cmd on_stack_limit = number 32
make_config blazesym aslr has_cmd perf_rb_pages = number 0
make_config blazesym aslr has_cmd print_maps_on_exit = flag true
make_config blazesym aslr has_cmd show_debug_info = flag blazesym
make_config blazesym aslr has_cmd stack_mode = mode bpftrace_mode
make_config blazesym aslr has_cmd str_trunc_trailer = text (codes "..")
make_config blazesym aslr has_cmd unstable_addr = unstable warn_unstable
make_config blazesym aslr has_cmd unstable_import = unstable warn_unstable
make_config blazesym aslr has_cmd unstable_macro = unstable warn_unstable
make_config blazesym aslr has_cmd unstable_map_decl = unstable warn_unstable
make_config blazesym aslr has_cmd unstable_tseries = unstable warn_unstable
make_config blazesym aslr has_cmd unstable_typeinfo = unstable error_unstable
make_config blazesym aslr has_cmd use_blazesym = flag blazesym
