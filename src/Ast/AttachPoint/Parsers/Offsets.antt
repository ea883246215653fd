-- ===== src/Ast/AttachPoint/Parsers/Offsets.antt =====
-- A function with an offset.
use bpftrace.Util.Strings.{split_loop, split_string}
use bpftrace.Prelude.{ℕ, ◌+◌, ◌≡◌, refl, ap, true, false, [], ◌∷◌, ◌++◌, arith, Bytes, text_eq, ◌∙◌}
use bpftrace.Ast.AttachPoint.Parsers.{
  count_byte, kprobe_func, parse_offset, AttachPoint, set_func_offset, ok_state, to_uint,
}
use bpftrace.Util.Strings.Split.{Free}
use mathlib.Core.List.{append-nil, append_assoc}

count_byte-append : (b : ℕ) (s t : Bytes) → count_byte b (s ++ t) ≡ count_byte b s + count_byte b t
count_byte-append b [] t = omega arith
count_byte-append b (c ∷ s) t = ground (arith, count_byte-append b s t)

count_byte-Free : (b : ℕ) (s : Bytes) → Free b s → count_byte b s ≡ 0
count_byte-Free b [] h = refl
count_byte-Free b (c ∷ s) h = ground (arith, h.0, count_byte-Free b s h.1)

split_loop-kept :
    (d : ℕ) (value e rest : Bytes)
    → Free d e
    → text_eq (value ++ e) [] ≡ false
    → split_loop d true value (e ++ (d ∷ rest)) ≡ (value ++ e) ∷ split_loop d true [] rest
unfolding split_loop
split_loop-kept d value [] rest h n =
    let w : text_eq value [] ≡ false = rw (append-nil value) at n in
    rw (append-nil value) (ground (arith, w))
split_loop-kept d value (c ∷ e) rest h n =
    let m : text_eq ((value ++ (c ∷ [])) ++ e) [] ≡ false = rw (append_assoc value (c ∷ []) e) n in
    ground (
      arith,
      h.0,
      split_loop-kept d (value ++ (c ∷ [])) e rest h.1 m,
      append_assoc value (c ∷ []) e,
    )

split_loop-end :
    (d : ℕ) (value e : Bytes)
    → Free d e
    → text_eq (value ++ e) [] ≡ false
    → split_loop d true value e ≡ (value ++ e) ∷ []
unfolding split_loop
split_loop-end d value [] h n =
    let w : text_eq value [] ≡ false = rw (append-nil value) at n in
    rw (append-nil value) (ground (arith, w))
split_loop-end d value (c ∷ e) h n =
    let m : text_eq ((value ++ (c ∷ [])) ++ e) [] ≡ false = rw (append_assoc value (c ∷ []) e) n in
    ground (arith, h.0, split_loop-end d (value ++ (c ∷ [])) e h.1 m, append_assoc value (c ∷ []) e)

split_string-pair :
    (d : ℕ) (e t : Bytes)
    → Free d e
    → Free d t
    → text_eq e [] ≡ false
    → text_eq t [] ≡ false
    → split_string (e ++ (d ∷ t)) d true ≡ e ∷ t ∷ []
unfolding split_string
split_string-pair d e t h k n m =
    split_loop-kept d [] e t h n ∙ ap (λ l. e ∷ l) (split_loop-end d [] t k m)

-- A function and an offset with a plus sign between them are taken apart, and the offset is read as
-- a number.
pub kprobe_func-offset :
    (f t : Bytes) (point : AttachPoint)
    → Free b'+' f
    → Free b'+' t
    → text_eq f [] ≡ false
    → text_eq t [] ≡ false
    → kprobe_func true (f ++ (b'+' ∷ t)) point
      ≡ set_func_offset (record point { func = f }) (to_uint t 0)
unfolding kprobe_func parse_offset
kprobe_func-offset f t point h k n m =
    let one : count_byte b'+' (f ++ (b'+' ∷ t)) ≡ 1 =
      count_byte-append b'+' f (b'+' ∷ t)
      ∙ omega (arith, count_byte-Free b'+' f h, count_byte-Free b'+' t k) in
    rw one (rw (split_string-pair b'+' f t h k n m) refl)

pub kprobe_func-plain :
    (f : Bytes) (point : AttachPoint)
    → Free b'+' f
    → kprobe_func true f point ≡ (ok_state, record point { func = f })
unfolding kprobe_func
kprobe_func-plain f point h = rw (count_byte-Free b'+' f h) refl
