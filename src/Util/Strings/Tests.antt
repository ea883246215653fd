-- ===== src/Util/Strings/Tests.antt =====
-- Runs of the helpers on text, and the theorems about them at concrete texts.
use bpftrace.Util.Strings.{
  split_string, split_loop, str_join, hex_format_buffer, hex_digit, erase_prefix,
  erase_parameter_list,
}
use bpftrace.Util.Strings.Split.{split_string-str_join}
use bpftrace.Prelude.{◌≡◌, refl, true, false, [], ◌∷◌, arith, codes, Bytes}

trailing_delimiter : split_string (codes "a,,b,") b',' false ≡ codes "a" ∷ [] ∷ codes "b" ∷ []
unfolding split_string split_loop
trailing_delimiter = refl

without_empty : split_string (codes "a,,b,") b',' true ≡ codes "a" ∷ codes "b" ∷ []
unfolding split_string split_loop
without_empty = refl

mixed_buffer : hex_format_buffer true true (b'a' ∷ 0 ∷ b'z' ∷ []) ≡ codes "a\\x00z"
unfolding hex_format_buffer hex_digit
mixed_buffer = refl

spaced_buffer : hex_format_buffer false false (1 ∷ 255 ∷ []) ≡ codes "01 ff"
unfolding hex_format_buffer hex_digit
spaced_buffer = refl

prefix_of_probe : erase_prefix (codes "kprobe:f:g") ≡ (codes "kprobe", codes "f:g")
unfolding erase_prefix
prefix_of_probe = refl

demangled_name : erase_parameter_list (codes "ns::f(g(int), long) const") ≡ codes "ns::f"
unfolding erase_parameter_list
demangled_name = refl

split_string-str_join_example :
    split_string (str_join (codes "a" ∷ [] ∷ codes "b" ∷ []) (codes ",")) b',' false
    ≡ codes "a" ∷ [] ∷ codes "b" ∷ []
split_string-str_join_example =
    split_string-str_join b',' (codes "a" ∷ [] ∷ codes "b" ∷ [])
      ((omega arith, tt), (tt, ((omega arith, tt), λ e. cc)))

abbrev two_bytes : Bytes
two_bytes = 7 ∷ 200 ∷ []
