-- ===== src/Util/Wildcard/Search.antt =====
-- What `find` finds: the needle stands there, and no later than anywhere else.
use mathlib.Core.Option
use mathlib.Core.List.{append_assoc}
use bpftrace.Util.Wildcard.{find_at}
use bpftrace.Prelude.{
  ℕ, zero, suc, ◌≤◌, ◌≡◌, refl, ap, true, some, [], ◌∷◌, ◌++◌, arith, length, drop, Bytes,
  starts_with, ◌∙◌, ◌⊎◌, inl, inr, false, none, Bool-cases, length-append,
}

starts_with_split : (s t : Bytes) → starts_with s t ≡ true → s ≡ t ++ drop (length t) s
starts_with_split s [] h = refl
starts_with_split [] (b ∷ t) h = cc
starts_with_split (a ∷ s) (b ∷ t) h = ground (arith, starts_with_split s t)

pub starts_with-append : (t r : Bytes) → starts_with (t ++ r) t ≡ true
starts_with-append [] r = refl
starts_with-append (b ∷ t) r = ground (arith, starts_with-append t r)

pub drop-length_append : (t r : Bytes) → drop (length t) (t ++ r) ≡ r
drop-length_append [] r = refl
drop-length_append (b ∷ t) r = drop-length_append t r

drop-append_le : (n : ℕ) (a b : Bytes) → n ≤ length a → drop n (a ++ b) ≡ drop n a ++ b
drop-append_le zero a b h = refl
drop-append_le (suc n) [] b h = absurd (omega arith)
drop-append_le (suc n) (x ∷ a) b h = drop-append_le n a b (omega arith)

pub find_at-start : (s t : Bytes) → starts_with s t ≡ true → find_at s t ≡ some 0
unfolding find_at
find_at-start [] [] h = refl
find_at-start [] (b ∷ t) h = cc
find_at-start (c ∷ s) t h = rw h

find_at-later :
    (c : ℕ) (s t : Bytes)
    → starts_with (c ∷ s) t ≡ false
    → find_at (c ∷ s) t ≡ Option.map suc (find_at s t)
unfolding find_at
find_at-later c s t h = rw h

find_at-nil : (b : ℕ) (t : Bytes) → find_at [] (b ∷ t) ≡ none
unfolding find_at
find_at-nil b t = refl

-- The needle stands at the position that is found.
abbrev pub FoundIn : Bytes → Bytes → Type 0
FoundIn s t =
    (gap : Bytes) × (rest : Bytes) × (find_at s t ≡ some (length gap)) × (s ≡ gap ++ (t ++ rest))

pub find_at-cases : (s t : Bytes) → (find_at s t ≡ none) ⊎ FoundIn s t
find_at-cases [] [] = inr ([], [], find_at-start [] [] refl, refl)
find_at-cases [] (b ∷ t) = inl (find_at-nil b t)
find_at-cases (c ∷ s) t = elim (Bool-cases (starts_with (c ∷ s) t)) [
  | inl e ↦
      inr ([], drop (length t) (c ∷ s), find_at-start (c ∷ s) t e, starts_with_split (c ∷ s) t e)
  | inr e ↦ elim (find_at-cases s t) [
    | inl no_match ↦ inl (find_at-later c s t e ∙ ap (Option.map suc) no_match)
    | inr (gap, rest, at, split) ↦
        inr (c ∷ gap, rest, find_at-later c s t e ∙ ap (Option.map suc) at, ap (λ u. c ∷ u) split)
  ]
]

length-le_append : (a b : Bytes) → length b ≤ length (a ++ b)
length-le_append a b = omega (arith, length-append a b)

-- A needle that stands somewhere is found, and what follows the occurrence that is found ends in
-- what follows the given one.
abbrev pub FoundBefore : Bytes → Bytes → Bytes → Type 0
FoundBefore s t rest =
    (g : Bytes) × (r : Bytes) × (more : Bytes) × (find_at s t ≡ some (length g))
    × (s ≡ g ++ (t ++ r))
    × (r ≡ more ++ rest)

pub find_at-least : (gap t rest : Bytes) → FoundBefore (gap ++ (t ++ rest)) t rest
find_at-least [] t rest =
    ([], rest, [], find_at-start (t ++ rest) t (starts_with-append t rest), refl, refl)
find_at-least (c ∷ gap) t rest = elim (Bool-cases (starts_with (c ∷ (gap ++ (t ++ rest))) t)) [
  | inl e ↦ (
    [],
    drop (length t) (c ∷ (gap ++ (t ++ rest))),
    drop (length t) (c ∷ (gap ++ t)),
    find_at-start (c ∷ (gap ++ (t ++ rest))) t e,
    starts_with_split (c ∷ (gap ++ (t ++ rest))) t e,
    rw (← append_assoc gap t rest)
        (drop-append_le (length t) (c ∷ (gap ++ t)) rest (omega (arith, length-append gap t))),
  )
  | inr e ↦
      (let (g, r, more, at, split, suffix) = find_at-least gap t rest in
        (
          c ∷ g,
          r,
          more,
          find_at-later c (gap ++ (t ++ rest)) t e ∙ ap (Option.map suc) at,
          ap (λ u. c ∷ u) split,
          suffix,
        ))
]
