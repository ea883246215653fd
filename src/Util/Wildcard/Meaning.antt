-- ===== src/Util/Wildcard/Meaning.antt =====
-- `wildcard_match` decides the patterns that end in a star, and misses matches of the others.
use bpftrace.Util.Wildcard.{find, find_at, match_tokens, anchored, ends_at, wildcard_match}
use bpftrace.Util.Wildcard.Search.{find_at-cases, find_at-start, starts_with-append}
use bpftrace.Util.Wildcard.Sound.{
  Skips, match_tokens_sound, match_tokens_complete, match_tokens-some, match_tokens-nil,
}
use bpftrace.Prelude.{
  ℕ, ◌+◌, ◌≡◌, refl, sym, ap, ◌∙◌, inl, inr, Bool, true, false, Option, none, some, List, [], ◌∷◌,
  ◌++◌, arith, length, Bytes, ◌↔◌, length-append,
}
use mathlib.Core.List.{append-nil}

-- The text is the tokens in order with any text between them. Text may stand before the first token
-- only where the pattern starts with a star, and `rest` follows the last one.
abbrev pub Matches : List Bytes → Bool → Bytes → Bytes → Type 0
Matches ts true s rest = Skips ts s rest
Matches [] false s rest = ⊥
Matches (t ∷ ts) false s rest = (r : Bytes) × (s ≡ t ++ r) × Skips ts r rest

-- Text may follow the last token only where the pattern ends with a star.
abbrev pub EndsWell : Bool → Bytes → Type 0
EndsWell true rest = Unit
EndsWell false rest = rest ≡ []

nil_of_length : (s : Bytes) → length s ≡ 0 → s ≡ []
nil_of_length [] h = refl
nil_of_length (c ∷ s) h = absurd (omega arith)

ends_at_sound :
    (str rest : Bytes) (ew : Bool) (n : ℕ)
    → n + length rest ≡ length str
    → ends_at str ew (some n) ≡ true
    → EndsWell ew rest
unfolding ends_at
ends_at_sound str rest true n total h = tt
ends_at_sound str rest false n total h = nil_of_length rest (ground arith)

ends_at-some :
    (str : Bytes) (ew : Bool) (o : Option ℕ) → ends_at str ew o ≡ true → (n : ℕ) × (o ≡ some n)
unfolding ends_at
ends_at-some str ew none h = cc
ends_at-some str ew (some n) h = (n, refl)

-- The first token stands at the start.
anchored-zero :
    (str t : Bytes) (ts : List Bytes) → anchored str (t ∷ ts) ≡ some true → find_at str t ≡ some 0
unfolding anchored find
anchored-zero str t ts h = ground arith

found_at_start : (str t : Bytes) → find_at str t ≡ some 0 → (r : Bytes) × (str ≡ t ++ r)
found_at_start str t h = elim (find_at-cases str t) [
  | inl no_match ↦ absurd (cc)
  | inr (gap, r, at, split) ↦ (r, rw split (ap (λ u. u ++ (t ++ r)) (nil_of_length gap (cc))))
]

wildcard_match-free :
    (str : Bytes) (ts : List Bytes) (ew : Bool)
    → ends_at str ew (match_tokens str 0 ts) ≡ true
    → (rest : Bytes) × Skips ts str rest × EndsWell ew rest
wildcard_match-free str ts ew h =
    let (n, found) = ends_at-some str ew (match_tokens str 0 ts) h in
    let (rest, skips, total) = match_tokens_sound [] str ts 0 n refl found in
    (rest, skips, ends_at_sound str rest ew n total (rw found at h))

wildcard_match-anchored :
    (str t : Bytes) (ts : List Bytes) (ew : Bool)
    → anchored str (t ∷ ts) ≡ some true
    → ends_at str ew (match_tokens str 0 (t ∷ ts)) ≡ true
    → (rest : Bytes) × Matches (t ∷ ts) false str rest × EndsWell ew rest
wildcard_match-anchored str t ts ew a h =
    let start = anchored-zero str t ts a in
    let (r, split) = found_at_start str t start in
    let (n, found) = ends_at-some str ew (match_tokens str 0 (t ∷ ts)) h in
    let tail : match_tokens (t ++ r) (0 + 0 + length t) ts ≡ some n =
      rw (← split) (sym (match_tokens-some [] str t ts 0 0 refl start) ∙ found) in
    let (rest, skips, total) = match_tokens_sound t r ts (0 + 0 + length t) n (omega arith) tail in
    (rest, (r, split, skips), ends_at_sound str rest ew n (rw split total) (rw found at h))

-- With no token at hand and no star at the start there is nothing to compare with.
wildcard_match-nil : (str : Bytes) (ew : Bool) → wildcard_match str [] false ew ≡ none
unfolding wildcard_match anchored
wildcard_match-nil str ew = refl

-- Where `wildcard_match` answers true, the text matches the pattern.
wildcard_match_sound :
    (str : Bytes) (tokens : List Bytes) (sw ew : Bool)
    → wildcard_match str tokens sw ew ≡ some true
    → (rest : Bytes) × Matches tokens sw str rest × EndsWell ew rest
unfolding wildcard_match
wildcard_match_sound str tokens true ew h = wildcard_match-free str tokens ew (cc)
wildcard_match_sound str [] false ew h = absurd (cc (wildcard_match-nil str ew))
wildcard_match_sound str (t ∷ ts) false ew h =
    let parts : (anchored str (t ∷ ts) ≡ some true)
        × (ends_at str ew (match_tokens str 0 (t ∷ ts)) ≡ true) =
      ground arith in
    wildcard_match-anchored str t ts ew parts.0 parts.1

ends_at-free : (str : Bytes) (n : ℕ) → ends_at str true (some n) ≡ true
unfolding ends_at
ends_at-free str n = refl

complete_free :
    (str rest : Bytes) (ts : List Bytes)
    → Skips ts str rest
    → ends_at str true (match_tokens str 0 ts) ≡ true
complete_free str rest ts d =
    let (n, found) = match_tokens_complete [] str [] rest ts 0 refl d in
    ap (ends_at str true) found ∙ ends_at-free str n

anchored-start :
    (str t : Bytes) (ts : List Bytes) → find_at str t ≡ some 0 → anchored str (t ∷ ts) ≡ some true
unfolding anchored find
anchored-start str t ts h = rw (h, anchored) (ground arith)

wildcard_match_complete :
    (str rest : Bytes) (tokens : List Bytes) (sw : Bool)
    → Matches tokens sw str rest
    → wildcard_match str tokens sw true ≡ some true
unfolding wildcard_match
wildcard_match_complete str rest tokens true d = ap some (complete_free str rest tokens d)
wildcard_match_complete str rest [] false d = absurd d
wildcard_match_complete str rest (t ∷ ts) false (r, split, d) =
    let start : find_at str t ≡ some 0 =
      rw split (find_at-start (t ++ r) t (starts_with-append t r)) in
    rw (anchored-start str t ts start, complete_free str rest (t ∷ ts) ([], r, split, d))

-- For a pattern that ends with a star, `wildcard_match` answers true exactly on the texts that
-- match.
pub wildcard_match_iff :
    (str : Bytes) (tokens : List Bytes) (sw : Bool)
    → (wildcard_match str tokens sw true ≡ some true)
      ↔ ((rest : Bytes) × Matches tokens sw str rest)
wildcard_match_iff str tokens sw = (
  λ h. (let (rest, d, _) = wildcard_match_sound str tokens sw true h in (rest, d)),
  λ (rest, d). wildcard_match_complete str rest tokens sw d,
)

-- The first occurrence of a token is taken, also where only a later one reaches the end of the
-- text: the pattern of a star and a token does not match that token written twice, although it
-- should.
pub wildcard_match-repeated :
    (c : ℕ) (t : Bytes)
    → Matches ((c ∷ t) ∷ []) true ((c ∷ t) ++ (c ∷ t)) []
      × (wildcard_match ((c ∷ t) ++ (c ∷ t)) ((c ∷ t) ∷ []) true false ≡ some false)
unfolding wildcard_match ends_at
wildcard_match-repeated c t =
    let u = c ∷ t in
    let start = find_at-start (u ++ u) u (starts_with-append u u) in
    let stop : match_tokens (u ++ u) 0 (u ∷ []) ≡ some (0 + 0 + length u) =
      match_tokens-some [] (u ++ u) u [] 0 0 refl start
      ∙ match_tokens-nil (u ++ u) (0 + 0 + length u) in
    ((u, [], rw append-nil, refl), rw stop (ground (arith, length-append u u)))
