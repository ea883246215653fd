-- ===== src/Util/Similar/Suffix.antt =====
-- What the loop of `is_similar` measures.
use bpftrace.Util.Similar.{contains, common_loop, common_length, is_similar}
use bpftrace.Prelude.{
  ℕ, ◌/◌, min, ◌≡◌, refl, sym, ap, ◌∙◌, inl, inr, Bool, true, false, ◌&&◌, [], ◌∷◌, ◌++◌, arith,
  ltb, leb, if◌then◌else◌, Bool-cases, length, Bytes, starts_with, ◌||◌,
}
use mathlib.Core.Bool.{false≢true}
use mathlib.Core.List.{append-nil, append_assoc}

-- The length of the longest end of a word that occurs in another one.
abbrev pub longest_suffix : Bytes → Bytes → ℕ
longest_suffix target [] = 0
longest_suffix target (c ∷ s) =
    if contains target (c ∷ s) then length (c ∷ s) else longest_suffix target s

starts_with-append : (s u v : Bytes) → starts_with s (u ++ v) ≡ true → starts_with s u ≡ true
starts_with-append s [] v h = refl
starts_with-append [] (b ∷ u) v h = cc
starts_with-append (a ∷ s) (b ∷ u) v h = ground (arith, h, starts_with-append s u v)

or-true : (a : Bool) {b : Bool} → b ≡ true → (a || b) ≡ true
or-true true h = refl
or-true false h = h

contains-append : (t u v : Bytes) → contains t (u ++ v) ≡ true → contains t u ≡ true
unfolding contains
contains-append [] u v h = starts_with-append [] u v h
contains-append (c ∷ t) u v h = elim (Bool-cases (starts_with (c ∷ t) (u ++ v))) [
  | inl e ↦ rw (starts_with-append (c ∷ t) u v e) refl
  | inr e ↦ or-true (starts_with (c ∷ t) u) (contains-append t u v (rw (e, contains) at h))
]

contains-append_false : (t u v : Bytes) → contains t u ≡ false → contains t (u ++ v) ≡ false
contains-append_false t u v h = elim (Bool-cases (contains t (u ++ v))) [
  | inl e ↦ absurd (false≢true (sym h ∙ contains-append t u v e))
  | inr e ↦ e
]

common_loop-suffix :
    (target rest window : Bytes)
    → common_loop target rest window ≡ longest_suffix target (window ++ rest)
unfolding common_loop
common_loop-suffix target [] [] = refl
common_loop-suffix target [] (a ∷ window) = elim (Bool-cases (contains target (a ∷ window))) [
  | inl e ↦ rw (append-nil window) (rw (e, common_loop) refl)
  | inr e ↦ rw (append-nil window) (
      rw (e, common_loop)
        (common_loop-suffix target [] window ∙ ap (longest_suffix target) (append-nil window)))
]
common_loop-suffix target (c ∷ rest) [] = common_loop-suffix target rest (c ∷ [])
common_loop-suffix target (c ∷ rest) (a ∷ window) =
    elim (Bool-cases (contains target (a ∷ window))) [
      | inl e ↦
          rw (e, common_loop)
            (common_loop-suffix target rest ((a ∷ window) ++ c ∷ [])
              ∙ ap (longest_suffix target) (append_assoc (a ∷ window) (c ∷ []) rest))
      | inr e ↦
          rw (e, common_loop)
            (common_loop-suffix target (c ∷ rest) window
              ∙ sym (rw (contains-append_false target (a ∷ window) (c ∷ rest) e) refl))
    ]

common_length-suffix :
    (user target : Bytes) → common_length user target ≡ longest_suffix target user
unfolding common_length
common_length-suffix [] target = refl
common_length-suffix (c ∷ user) target = common_loop-suffix target user (c ∷ [])

starts_with-contains : (t u v : Bytes) → starts_with t (u ++ v) ≡ true → contains t v ≡ true
unfolding contains
starts_with-contains [] [] v h = h
starts_with-contains [] (b ∷ u) v h = cc
starts_with-contains (a ∷ t) [] v h = rw h refl
starts_with-contains (a ∷ t) (b ∷ u) v h =
    or-true (starts_with (a ∷ t) v) (starts_with-contains t u v (ground (arith, h)))

contains-append_right : (t u v : Bytes) → contains t (u ++ v) ≡ true → contains t v ≡ true
unfolding contains
contains-append_right [] u v h = starts_with-contains [] u v h
contains-append_right (c ∷ t) u v h = elim (Bool-cases (starts_with (c ∷ t) (u ++ v))) [
  | inl e ↦ starts_with-contains (c ∷ t) u v e
  | inr e ↦ or-true (starts_with (c ∷ t) v) (contains-append_right t u v (rw (e, contains) at h))
]

longest_suffix-foreign :
    (target user : Bytes) (c : ℕ)
    → contains target (c ∷ []) ≡ false
    → longest_suffix target (user ++ c ∷ []) ≡ 0
longest_suffix-foreign target [] c h = rw h refl
longest_suffix-foreign target (a ∷ user) c h =
    elim (Bool-cases (contains target (a ∷ (user ++ c ∷ [])))) [
      | inl e ↦ absurd (false≢true (sym h ∙ contains-append_right target (a ∷ user) (c ∷ []) e))
      | inr e ↦ rw e (longest_suffix-foreign target user c h)
    ]

-- Two words are similar exactly where the longest end of the first that occurs in the second has two
-- letters or more, and at least as many as half the length of the shorter word, rounded down. It is an end that counts, not any part: no
-- word whose last letter is not in the second is similar to it.
pub is_similar-suffix :
    (user target : Bytes)
    → (is_similar user target ≡ (
        ltb 1 (longest_suffix target user)
        && leb (min (length user) (length target) / 2) (longest_suffix target user)))
      × ((c : ℕ) → contains target (c ∷ []) ≡ false → is_similar (user ++ c ∷ []) target ≡ false)
unfolding is_similar
is_similar-suffix user target = (
  rw (common_length-suffix user target) refl,
  λ c h.
      rw (common_length-suffix (user ++ c ∷ []) target)
        (rw (longest_suffix-foreign target user c h) refl),
)
