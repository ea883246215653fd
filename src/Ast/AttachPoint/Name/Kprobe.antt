-- ===== src/Ast/AttachPoint/Name/Kprobe.antt =====
-- A printed `kprobe` attach point, read again.
use bpftrace.Prelude.{
  ℕ, ◌≤◌, ◌≡◌, ap, ◌∙◌, inl, inr, Bool, true, false, [], ◌∷◌, ◌++◌, arith, ◌==◌, Bool-cases, Bytes,
  codes, text_eq, refl, sym, List, ==_iff, suc, some,
}
use bpftrace.Util.Strings.Split.{Free}
use bpftrace.Util.Strtoull.{uint64_max}
use bpftrace.Util.IntParser.Digits.{Digits}
use bpftrace.Ast.AttachPoint.{AttachPoint, make_attachpoint, ok_state, Host}
use bpftrace.Ast.AttachPoint.Lex.Plain.{Plain, AllPlain, lex_attachpoint-AllPlain, Plain-append}
use bpftrace.Ast.AttachPoint.Parsers.{kprobe_func, set_func_offset, kprobe_parser}
use bpftrace.Ast.AttachPoint.Name.{offset_text, name}
use bpftrace.ProbeTypes.{find_item, probetype, probe_list, expand_probe_name, kprobe}
use bpftrace.Util.Decimal.{to_string}
use bpftrace.Util.Decimal.Read.{to_string-Digits, to_uint-to_string}
use mathlib.Core.List.{append-nil, append_assoc}
use bpftrace.Util.Strings.{str_join, to_lower, join_loop}
use bpftrace.Ast.AttachPoint.Parsers.Offsets.{kprobe_func-plain, kprobe_func-offset}
use bpftrace.Ast.AttachPoint.Parse.{
  parse_lexed, parse_attachpoint, parse_types, parse_parts, without_new, probe_types,
}
use bpftrace.Ast.AttachPoint.Lex.{lex_attachpoint, parts}
use bpftrace.Util.Wildcard.{has_wildcard}

-- A `kprobe` attach point: a function, in a module or in none, with an offset.
abbrev pub kprobe_point : Bytes → Bytes → Bytes → ℕ → AttachPoint
kprobe_point text t f o = record (make_attachpoint text false) {
  provider = codes "kprobe";
  target = t;
  func = f;
  func_offset = o;
}

Digits-Plain : (s : Bytes) → Digits s → Plain s
Digits-Plain [] d = tt
Digits-Plain (c ∷ s) ((l, h), d) =
    (omega (arith, l, h), omega (arith, l, h), omega (arith, l, h), Digits-Plain s d)

Digits-Free : (s : Bytes) → Digits s → Free b'+' s
Digits-Free [] d = tt
Digits-Free (c ∷ s) ((l, h), d) = (omega (arith, l, h), Digits-Free s d)

offset_text-Plain : (o : ℕ) → o ≤ uint64_max → Plain (offset_text o)
offset_text-Plain o b = elim (Bool-cases (o == 0)) [
  | inl t ↦ rw t tt
  | inr f ↦
      rw f
        (omega arith, omega arith, omega arith, Digits-Plain (to_string o) (to_string-Digits o b).0)
]

-- The function and its offset, as they are printed, are read again.
kprobe_func-printed :
    (text t f : Bytes) (o : ℕ)
    → Free b'+' f
    → text_eq f [] ≡ false
    → o ≤ uint64_max
    → kprobe_func true (f ++ offset_text o) (kprobe_point text t [] 0)
      ≡ (ok_state, kprobe_point text t f o)
kprobe_func-printed text t f o h n b = elim (Bool-cases (o == 0)) [
  | inl z ↦ rw z (
      rw (append-nil f) (
        kprobe_func-plain f (kprobe_point text t [] 0) h
        ∙ ap (λ m. (ok_state, kprobe_point text t f m)) (sym ((==_iff o 0).0 z))))
  | inr p ↦ rw p (
      kprobe_func-offset f (to_string o) (kprobe_point text t [] 0) h
        (Digits-Free _ (to_string-Digits o b).0) n (to_string-Digits o b).1
      ∙ ap (set_func_offset (kprobe_point text t f 0)) (to_uint-to_string o b))
]

kprobe_type : probetype (expand_probe_name (codes "kprobe")) ≡ kprobe
unfolding probetype find_item probe_list expand_probe_name to_lower
kprobe_type = refl

kprobe_name : expand_probe_name (codes "kprobe") ≡ codes "kprobe"
unfolding find_item probe_list expand_probe_name
kprobe_name = refl

abbrev printed_parts : Bytes → Bytes → ℕ → List Bytes
printed_parts [] f o = codes "kprobe" ∷ (f ++ offset_text o) ∷ []
printed_parts (c ∷ t) f o = codes "kprobe" ∷ (c ∷ t) ∷ (f ++ offset_text o) ∷ []

name-parts :
    (text t : Bytes) (c : ℕ) (f : Bytes) (o : ℕ)
    → name (kprobe_point text t (c ∷ f) o) ≡ str_join (printed_parts t (c ∷ f) o) (b':' ∷ [])
unfolding name str_join join_loop
name-parts text [] c f o = simp (append-nil, append_assoc)
name-parts text (d ∷ t) c f o = simp (append-nil, append_assoc)

kprobe_Plain : Plain (codes "kprobe")
kprobe_Plain = (
  omega arith,
  omega arith,
  omega arith,
  (
    omega arith,
    omega arith,
    omega arith,
    (
      omega arith,
      omega arith,
      omega arith,
      (
        omega arith,
        omega arith,
        omega arith,
        (omega arith, omega arith, omega arith, (omega arith, omega arith, omega arith, tt)),
      ),
    ),
  ),
)

lex_of_parts :
    (n : ℕ) (params : List Bytes) (t f : Bytes) (o : ℕ)
    → AllPlain (printed_parts t f o)
    → lex_attachpoint (suc n) params (str_join (printed_parts t f o) (b':' ∷ []))
      ≡ parts (printed_parts t f o)
lex_of_parts n params [] f o h =
    lex_attachpoint-AllPlain n params (codes "kprobe") ((f ++ offset_text o) ∷ []) h
lex_of_parts n params (c ∷ t) f o h =
    lex_attachpoint-AllPlain n params (codes "kprobe") ((c ∷ t) ∷ (f ++ offset_text o) ∷ []) h

printed_parts-AllPlain :
    (t f : Bytes) (o : ℕ) → Plain t → Plain (f ++ offset_text o) → AllPlain (printed_parts t f o)
printed_parts-AllPlain [] f o p q = (kprobe_Plain, (q, tt))
printed_parts-AllPlain (c ∷ t) f o p q = (kprobe_Plain, (p, (q, tt)))

kprobe_of_parts :
    (text t : Bytes) (c : ℕ) (f : Bytes) (o : ℕ)
    → Free b'+' (c ∷ f)
    → o ≤ uint64_max
    → kprobe_parser true (kprobe_point text [] [] 0) (printed_parts t (c ∷ f) o)
      ≡ (ok_state, kprobe_point text t (c ∷ f) o)
unfolding kprobe_parser
kprobe_of_parts text [] c f o h b = kprobe_func-printed text [] (c ∷ f) o h refl b
kprobe_of_parts text (d ∷ t) c f o h b = kprobe_func-printed text (d ∷ t) (c ∷ f) o h refl b

lexed_kprobe :
    (host : Host) (listing has_iter : Bool) (text t : Bytes) (c : ℕ) (f : Bytes) (o : ℕ)
    → Free b'+' (c ∷ f)
    → o ≤ uint64_max
    → parse_lexed host listing has_iter
        (make_attachpoint text false)
        (parts (printed_parts t (c ∷ f) o))
      ≡ some (without_new (has_iter, (ok_state, kprobe_point text t (c ∷ f) o)))
unfolding parse_lexed parse_types parse_parts probe_types has_wildcard probetype find_item
    probe_list expand_probe_name to_lower
lexed_kprobe host listing has_iter text [] c f o h b =
    ap (λ p. some (without_new (has_iter, p))) (kprobe_of_parts text [] c f o h b)
lexed_kprobe host listing has_iter text (d ∷ t) c f o h b =
    ap (λ p. some (without_new (has_iter, p))) (kprobe_of_parts text (d ∷ t) c f o h b)

-- The name of a `kprobe` attach point is read as that attach point, with its module, if it has one,
-- and with its offset, a number of at most 64 bits, where neither name has a colon, a double quote
-- or a dollar sign in it, the function no plus sign, and the function is not empty.
pub parse_attachpoint-name :
    (n : ℕ) (host : Host) (listing has_iter : Bool) (t : Bytes) (c : ℕ) (f : Bytes) (o : ℕ)
    → Plain t
    → Plain (c ∷ f)
    → Free b'+' (c ∷ f)
    → o ≤ uint64_max
    → parse_attachpoint
        (suc n)
        host
        listing
        has_iter
        (make_attachpoint (name (kprobe_point [] t (c ∷ f) o)) false)
      ≡ some (
          without_new
            (has_iter, (ok_state, kprobe_point (name (kprobe_point [] t (c ∷ f) o)) t (c ∷ f) o)))
unfolding parse_attachpoint
parse_attachpoint-name n host listing has_iter t c f o p q h b =
    let printed = name (kprobe_point [] t (c ∷ f) o) in
    let clean =
      printed_parts-AllPlain t (c ∷ f) o p
        (Plain-append (c ∷ f) (offset_text o) q (offset_text-Plain o b)) in
    ap (parse_lexed host listing has_iter (make_attachpoint printed false)) (
      ap (lex_attachpoint (suc n) host.params) (name-parts [] t c f o)
      ∙ lex_of_parts n host.params t (c ∷ f) o clean)
    ∙ lexed_kprobe host listing has_iter printed t c f o h b
