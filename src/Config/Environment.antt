-- ===== src/Config/Environment.antt =====
-- `load_environment`. The C library's `getenv` is a parameter.
use bpftrace.Config.Options.{
  cache_user_symbols, cpp_demangle, lazy_symbolication, license, log_size, max_bpf_progs,
  max_cat_bytes, max_map_keys, max_probes, max_strlen, missing_probes, on_stack_limit,
  perf_rb_pages, print_maps_on_exit, show_debug_info, stack_mode, str_trunc_trailer, unstable_addr,
  unstable_import, unstable_macro, unstable_map_decl, unstable_tseries, unstable_typeinfo,
  use_blazesym, Config, Key, Value, key_name, all_keys, field_type, key_index,
}
use bpftrace.Prelude.{
  ◌≡◌, refl, sym, ap, ◌∙◌, Bool, true, false, ◌||◌, Option, none, some, List, [], ◌∷◌, Bytes, inl,
  inr, Bool-cases, not, ◌&&◌, arith,
}
use bpftrace.Config.Setting.{
  set_text, key_eq, update, store-shape, set_found_text, update_self, key_eq_sound, update-other,
}
use bpftrace.Config.Parse.{done, Parsed, failed, parse_text}
use bpftrace.Config.Names.{env_name, lookup-names}
use mathlib.Core.Path.{subst}

abbrev pub set_from : Key → Option Bytes → Config → Parsed Config
set_from k none c = done c
set_from k (some value) c = set_text (key_name k) value c

abbrev pub next : (Config → Parsed Config) → Parsed Config → Parsed Config
next f (failed e) = failed e
next f (done c) = f c

-- The loop over the keys: the first error ends it.
unfoldable pub load_keys : (Bytes → Option Bytes) → List Key → Config → Parsed Config
load_keys getenv [] c = done c
load_keys getenv (k ∷ ks) c = next (load_keys getenv ks) (set_from k (getenv (env_name k)) c)

unfoldable pub load_environment : (Bytes → Option Bytes) → Config → Parsed Config
load_environment getenv c = load_keys getenv all_keys c

-- What the environment asks of a field: its variable's value, parsed, or the field as it was.
abbrev pub From : Key → Option Bytes → Value → Value → Type 0
From k none old new = new ≡ old
From k (some value) old new = parse_text (field_type k) (key_name k) old value ≡ done new

abbrev mem : Key → List Key → Bool
mem k [] = false
mem k (j ∷ js) = key_eq j k || mem k js

abbrev distinct : List Key → Bool
distinct [] = true
distinct (k ∷ ks) = not (mem k ks) && distinct ks

distinct-tail :
    (k : Key) (ks : List Key) → distinct (k ∷ ks) ≡ true → (mem k ks ≡ false) × (distinct ks ≡ true)
distinct-tail k ks h = ground arith

set_text-own :
    (k : Key) (value : Bytes) (c after : Config)
    → set_text (key_name k) value c ≡ done after
    → (v : Value) × (parse_text (field_type k) (key_name k) (c k) value ≡ done v)
      × (after ≡ update k v c)
unfolding set_text
set_text-own k value c after h =
    store-shape k c after _ (sym (ap (set_found_text (key_name k) value c) (lookup-names k).0) ∙ h)

same : {c after : Config} → done c ≡ done after → after ≡ c
same h = cc

set_from-own :
    (k : Key) (o : Option Bytes) (c after : Config)
    → set_from k o c ≡ done after
    → From k o (c k) (after k) × ((other : Key) → key_eq k other ≡ false → after other ≡ c other)
set_from-own k none c after h = (ap (λ d. d k) (same h), λ other n. ap (λ d. d other) (same h))
set_from-own k (some value) c after h =
    let (v, e, u) = set_text-own k value c after h in
    (
      subst (λ x. parse_text (field_type k) (key_name k) (c k) value ≡ done x)
          (sym (ap (λ d. d k) u ∙ update_self k v c)) e,
      λ other n. ap (λ d. d other) u ∙ update-other k other v c n,
    )

next-shape :
    (f : Config → Parsed Config) (r : Parsed Config) (after : Config)
    → next f r ≡ done after
    → (c : Config) × (r ≡ done c) × (f c ≡ done after)
next-shape f (failed e) after h = cc
next-shape f (done c) after h = (c, refl, h)

or_right : {a b : Bool} → (a || b) ≡ true → a ≡ false → b ≡ true
or_right {a = true} h k = cc
or_right {a = false} h k = h

or_false : {a b : Bool} → (a || b) ≡ false → (a ≡ false) × (b ≡ false)
or_false {a = true} h = cc
or_false {a = false} h = (refl, h)

load_keys-From :
    (getenv : Bytes → Option Bytes) (ks : List Key) (c after : Config) (k : Key)
    → distinct ks ≡ true
    → load_keys getenv ks c ≡ done after
    → (mem k ks ≡ true → From k (getenv (env_name k)) (c k) (after k))
      × (mem k ks ≡ false → after k ≡ c k)
unfolding load_keys
load_keys-From getenv [] c after k d h = (λ m. cc, λ m. sym (ap (λ d. d k) (sym (same h))))
load_keys-From getenv (j ∷ js) c after k d h =
    let (n, unique) = distinct-tail j js d in
    let (mid, first, rest) = next-shape (load_keys getenv js) _ after h in
    let (own, others) = set_from-own j (getenv (env_name j)) c mid first in
    let (inside, outside) = load_keys-From getenv js mid after k unique rest in
    let last = (load_keys-From getenv js mid after j unique rest).1 n in
    (
      λ m. elim (Bool-cases (key_eq j k)) [
        | inl e ↦
            subst (λ i. From i (getenv (env_name i)) (c i) (after i)) (key_eq_sound j k e)
              (subst (From j (getenv (env_name j)) (c j)) (sym last) own)
        | inr e ↦
            subst (λ x. From k (getenv (env_name k)) x (after k)) (others k e)
              (inside (or_right m e))
      ],
      λ m. outside (or_false m).1 ∙ others k (or_false {a = key_eq j k} m).0,
    )

all_keys-distinct : distinct all_keys ≡ true
unfolding key_index
all_keys-distinct = refl

all_keys-mem : (k : Key) → mem k all_keys ≡ true
unfolding key_index
all_keys-mem cache_user_symbols = refl
all_keys-mem cpp_demangle = refl
all_keys-mem lazy_symbolication = refl
all_keys-mem license = refl
all_keys-mem log_size = refl
all_keys-mem max_bpf_progs = refl
all_keys-mem max_cat_bytes = refl
all_keys-mem max_map_keys = refl
all_keys-mem max_probes = refl
all_keys-mem max_strlen = refl
all_keys-mem missing_probes = refl
all_keys-mem on_stack_limit = refl
all_keys-mem perf_rb_pages = refl
all_keys-mem print_maps_on_exit = refl
all_keys-mem show_debug_info = refl
all_keys-mem stack_mode = refl
all_keys-mem str_trunc_trailer = refl
all_keys-mem unstable_addr = refl
all_keys-mem unstable_import = refl
all_keys-mem unstable_macro = refl
all_keys-mem unstable_map_decl = refl
all_keys-mem unstable_tseries = refl
all_keys-mem unstable_typeinfo = refl
all_keys-mem use_blazesym = refl

-- When `load_environment` succeeds, every option whose variable the environment sets has the value
-- that its parser gives for the variable's text, and every other option is as before.
pub load_environment-From :
    (getenv : Bytes → Option Bytes) (c after : Config) (k : Key)
    → load_environment getenv c ≡ done after
    → From k (getenv (env_name k)) (c k) (after k)
unfolding load_environment
load_environment-From getenv c after k h =
    (load_keys-From getenv all_keys c after k all_keys-distinct h).0 (all_keys-mem k)
