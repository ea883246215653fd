-- ===== src/Util/Similar/Tests.antt =====
-- Similar words: runs of src/util/similar.h at fixed inputs, and an instance of the theorem.
use bpftrace.Util.Similar.{is_similar, common_length, common_loop, contains}
use bpftrace.Util.Similar.Suffix.{longest_suffix, is_similar-suffix}
use bpftrace.Prelude.{
  ℕ, ◌/◌, min, ◌≡◌, refl, true, false, ◌&&◌, [], ◌∷◌, ◌++◌, ltb, leb, length, codes,
}

typo_in_front : is_similar (codes "x_printf") (codes "printf") ≡ true
unfolding is_similar common_length common_loop contains
typo_in_front = refl

typo_at_end : is_similar (codes "printf_x") (codes "printf") ≡ false
unfolding is_similar common_length common_loop contains
typo_at_end = refl

is_similar-suffix_example :
    (is_similar (codes "print") (codes "printf") ≡ (
      ltb 1 (longest_suffix (codes "printf") (codes "print"))
      && leb
          (min (length (codes "print")) (length (codes "printf")) / 2)
          (longest_suffix (codes "printf") (codes "print"))))
    × ((c : ℕ)
        → contains (codes "printf") (c ∷ []) ≡ false
        → is_similar (codes "print" ++ c ∷ []) (codes "printf") ≡ false)
is_similar-suffix_example = is_similar-suffix (codes "print") (codes "printf")
