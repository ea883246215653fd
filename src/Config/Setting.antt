-- ===== src/Config/Setting.antt =====
-- `Config::set`.
use bpftrace.Config.Options.{
  a_license, gpl, gpl_v2, gpl_ar, dual_bsd_gpl, dual_mit_gpl, dual_mpl_gpl, license_of,
  cache_user_symbols, cpp_demangle, lazy_symbolication, license, log_size, max_bpf_progs,
  max_cat_bytes, max_map_keys, max_probes, max_strlen, missing_probes, on_stack_limit,
  perf_rb_pages, print_maps_on_exit, show_debug_info, stack_mode, str_trunc_trailer, unstable_addr,
  unstable_import, unstable_macro, unstable_map_decl, unstable_tseries, unstable_typeinfo,
  use_blazesym, key_index, Key, Config, Value, fits, FieldType, field_type, all_keys,
  CompatibleBpfLicense,
}
use bpftrace.Config.Names.{lookup}
use bpftrace.Prelude.{
  ℕ, ◌≡◌, Bool, true, ◌==◌, if◌then◌else◌, Bytes, arith, refl, sym, ap, ◌∙◌, inl, inr, false,
  ==_iff, Bool-cases, get_or,
}
use bpftrace.Config.Parse.{
  parse_text, parse_integer_value, Parsed, failed, done, find_license, get_license_str,
}
use mathlib.Core.Path.{subst}

abbrev pub key_eq : Key → Key → Bool
key_eq a b = key_index a == key_index b

-- The write through the parser's pointer.
unfoldable pub update : Key → Value → Config → Config
unfolding key_index
update k v c = λ other. if key_eq k other then v else c other

abbrev pub store : Key → Config → Parsed Value → Parsed Config
store k c (failed e) = failed e
store k c (done v) = done (update k v c)

abbrev pub set_found_text : Bytes → Bytes → Config → Parsed Key → Parsed Config
set_found_text original_key val c (failed e) = failed e
set_found_text original_key val c (done k) =
    store k c (parse_text (field_type k) original_key (c k) val)

abbrev pub set_found_integer : Bytes → ℕ → Config → Parsed Key → Parsed Config
set_found_integer original_key val c (failed e) = failed e
set_found_integer original_key val c (done k) =
    store k c (parse_integer_value (field_type k) original_key (c k) val)

-- `set` with a text.
unfoldable pub set_text : Bytes → Bytes → Config → Parsed Config
set_text original_key val c = set_found_text original_key val c (lookup original_key)

-- `set` with a number.
unfoldable pub set_integer : Bytes → ℕ → Config → Parsed Config
set_integer original_key val c = set_found_integer original_key val c (lookup original_key)

-- Every field has a value of its type.
abbrev pub WellTyped : Config → Type 0
WellTyped c = (k : Key) → fits (field_type k) (c k) ≡ true

parse_text-fits :
    (t : FieldType) (key s : Bytes) (old v : Value)
    → fits t old ≡ true
    → parse_text t key old s ≡ done v
    → fits t v ≡ true
unfolding parse_text
parse_text-fits t key s old v h e = ground arith

parse_integer_value-fits :
    (t : FieldType) (key : Bytes) (n : ℕ) (old v : Value)
    → fits t old ≡ true
    → parse_integer_value t key old n ≡ done v
    → fits t v ≡ true
unfolding parse_integer_value
parse_integer_value-fits t key n old v h e = ground arith

abbrev key_at : ℕ → Key
key_at n = get_or all_keys n use_blazesym

key_at-index : (k : Key) → key_at (key_index k) ≡ k
unfolding key_index
key_at-index cache_user_symbols = refl
key_at-index cpp_demangle = refl
key_at-index lazy_symbolication = refl
key_at-index license = refl
key_at-index log_size = refl
key_at-index max_bpf_progs = refl
key_at-index max_cat_bytes = refl
key_at-index max_map_keys = refl
key_at-index max_probes = refl
key_at-index max_strlen = refl
key_at-index missing_probes = refl
key_at-index on_stack_limit = refl
key_at-index perf_rb_pages = refl
key_at-index print_maps_on_exit = refl
key_at-index show_debug_info = refl
key_at-index stack_mode = refl
key_at-index str_trunc_trailer = refl
key_at-index unstable_addr = refl
key_at-index unstable_import = refl
key_at-index unstable_macro = refl
key_at-index unstable_map_decl = refl
key_at-index unstable_tseries = refl
key_at-index unstable_typeinfo = refl
key_at-index use_blazesym = refl

pub key_eq_sound : (a b : Key) → key_eq a b ≡ true → a ≡ b
key_eq_sound a b h =
    sym (key_at-index a) ∙ ap key_at ((==_iff (key_index a) (key_index b)).0 h) ∙ key_at-index b

update-fits :
    (k : Key) (v : Value) (c : Config)
    → WellTyped c
    → fits (field_type k) v ≡ true
    → WellTyped (update k v c)
unfolding update
update-fits k v c w h other = elim (Bool-cases (key_eq k other)) [
  | inl e ↦ rw e (subst (λ j. fits (field_type j) v ≡ true) (key_eq_sound k other e) h)
  | inr e ↦ rw e (w other)
]

-- What a `set` that succeeds has done: `lookup` found a key, its parser gave a value, that value
-- is in its field, and every other field is as before.
pub data Written : Parsed Key → (Key → Parsed Value) → Config → Config → Type 0 where
  written :
      {k : Key} {parser : Key → Parsed Value} {v : Value} {c after : Config}
      → parser k ≡ done v
      → after k ≡ v
      → ((other : Key) → key_eq k other ≡ false → after other ≡ c other)
      → Written (done k) parser c after

pub store-shape :
    (k : Key) (c after : Config) (r : Parsed Value)
    → store k c r ≡ done after
    → (v : Value) × (r ≡ done v) × (after ≡ update k v c)
store-shape k c after (failed e) h = cc
store-shape k c after (done v) h = (v, refl, cc)

pub update_self : (k : Key) (v : Value) (c : Config) → update k v c k ≡ v
unfolding update
update_self k v c = ground arith

pub update-other :
    (k other : Key) (v : Value) (c : Config) → key_eq k other ≡ false → update k v c other ≡ c other
unfolding update
update-other k other v c h = rw h refl

store-Written :
    (k : Key) (parser : Key → Parsed Value) (c after : Config)
    → store k c (parser k) ≡ done after
    → Written (done k) parser c after
store-Written k parser c after h =
    let (v, e, u) = store-shape k c after (parser k) h in
    written e (ap (λ d. d k) u ∙ update_self k v c)
      (λ other n. ap (λ d. d other) u ∙ update-other k other v c n)

found_text-Written :
    (original_key val : Bytes) (c after : Config) (r : Parsed Key)
    → set_found_text original_key val c r ≡ done after
    → Written r (λ k. parse_text (field_type k) original_key (c k) val) c after
found_text-Written original_key val c after (failed e) h = cc
found_text-Written original_key val c after (done k) h = store-Written k _ c after h

store-WellTyped :
    (k : Key) (c after : Config) (r : Parsed Value)
    → WellTyped c
    → ((v : Value) → r ≡ done v → fits (field_type k) v ≡ true)
    → store k c r ≡ done after
    → WellTyped after
store-WellTyped k c after r w f h =
    let (v, e, u) = store-shape k c after r h in
    subst WellTyped (sym u) (update-fits k v c w (f v e))

found_text-WellTyped :
    (original_key val : Bytes) (c after : Config) (r : Parsed Key)
    → WellTyped c
    → set_found_text original_key val c r ≡ done after
    → WellTyped after
found_text-WellTyped original_key val c after (failed e) w h = cc
found_text-WellTyped original_key val c after (done k) w h =
    store-WellTyped k c after _ w
      (λ v. parse_text-fits (field_type k) original_key val (c k) v (w k)) h

found_integer-WellTyped :
    (original_key : Bytes) (n : ℕ) (c after : Config) (r : Parsed Key)
    → WellTyped c
    → set_found_integer original_key n c r ≡ done after
    → WellTyped after
found_integer-WellTyped original_key n c after (failed e) w h = cc
found_integer-WellTyped original_key n c after (done k) w h =
    store-WellTyped k c after _ w
      (λ v. parse_integer_value-fits (field_type k) original_key n (c k) v (w k)) h

-- `set` with a text that succeeds writes one field, with the value that the parser of the field's
-- type gives for the text, and no other.
pub set_text-Written :
    (original_key val : Bytes) (c after : Config)
    → set_text original_key val c ≡ done after
    → Written (lookup original_key) (λ k. parse_text (field_type k) original_key (c k) val) c after
unfolding set_text
set_text-Written original_key val c after h = found_text-Written original_key val c after _ h

-- `set` keeps every field's value of the field's type, given as a text or as a number.
pub set-WellTyped :
    (original_key val : Bytes) (n : ℕ) (c after : Config)
    → WellTyped c
    → (set_text original_key val c ≡ done after → WellTyped after)
      × (set_integer original_key n c ≡ done after → WellTyped after)
unfolding set_text set_integer
set-WellTyped original_key val n c after w = (
  found_text-WellTyped original_key val c after _ w,
  found_integer-WellTyped original_key n c after _ w,
)

-- The name of a license is parsed back to the license, whatever the field held.
pub license-round_trip :
    (l : CompatibleBpfLicense) (key : Bytes) (old : Value)
    → parse_text a_license key old (get_license_str l) ≡ done (license_of l)
unfolding parse_text find_license get_license_str
license-round_trip gpl key old = refl
license-round_trip gpl_v2 key old = refl
license-round_trip gpl_ar key old = refl
license-round_trip dual_bsd_gpl key old = refl
license-round_trip dual_mit_gpl key old = refl
license-round_trip dual_mpl_gpl key old = refl
