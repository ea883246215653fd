-- ===== src/Util/Wildcard/Sound.antt =====
-- `wildcard_match` against what a pattern with stars means.
use mathlib.Core.Option
use mathlib.Core.List.{append_assoc}
use bpftrace.Util.Wildcard.{find, find_at, match_tokens}
use bpftrace.Util.Wildcard.Search.{find_at-cases, find_at-least, drop-length_append}
use bpftrace.Prelude.{
  ℕ, ◌+◌, ◌≡◌, refl, inl, inr, none, some, List, [], ◌∷◌, ◌++◌, arith, le→leb, length,
  length-append, Bytes, sym, ◌∙◌,
}

-- The text is the tokens in order, with any text before each one, and `rest` after the last.
abbrev pub Skips : List Bytes → Bytes → Bytes → Type 0
Skips [] s rest = s ≡ rest
Skips (t ∷ ts) s rest = (gap : Bytes) × (r : Bytes) × (s ≡ gap ++ (t ++ r)) × Skips ts r rest

find-suffix :
    (pre s t : Bytes) (next : ℕ)
    → next ≡ length pre
    → find (pre ++ s) t next ≡ Option.map (λ k. next + k) (find_at s t)
unfolding find
find-suffix pre s t next e = rw (
  e,
  drop-length_append pre s,
  le→leb (length pre) (length (pre ++ s)) (omega (arith, length-append pre s)),
)

-- One round of the loop, from the text that is left.
match_tokens-none :
    (pre s t : Bytes) (ts : List Bytes) (next : ℕ)
    → next ≡ length pre
    → find_at s t ≡ none
    → match_tokens (pre ++ s) next (t ∷ ts) ≡ none
unfolding match_tokens
match_tokens-none pre s t ts next e h = rw (find-suffix pre s t next e, h, match_tokens)

pub match_tokens-some :
    (pre s t : Bytes) (ts : List Bytes) (next k : ℕ)
    → next ≡ length pre
    → find_at s t ≡ some k
    → match_tokens (pre ++ s) next (t ∷ ts) ≡ match_tokens (pre ++ s) (next + k + length t) ts
unfolding match_tokens
match_tokens-some pre s t ts next k e h = rw (find-suffix pre s t next e, h, match_tokens)

regroup : (pre gap t r : Bytes) → pre ++ (gap ++ (t ++ r)) ≡ (pre ++ (gap ++ t)) ++ r
regroup pre gap t r = simp append_assoc

regroup_length :
    (pre gap t : Bytes) (next : ℕ)
    → next ≡ length pre
    → next + length gap + length t ≡ length (pre ++ (gap ++ t))
regroup_length pre gap t next e = omega (arith, length-append pre (gap ++ t), length-append gap t)

pub match_tokens-nil : (str : Bytes) (next : ℕ) → match_tokens str next [] ≡ some next
unfolding match_tokens
match_tokens-nil str next = refl

some-inj : {a b : ℕ} → some a ≡ some b → a ≡ b
some-inj h = cc

pub match_tokens_sound :
    (pre s : Bytes) (ts : List Bytes) (next n : ℕ)
    → next ≡ length pre
    → match_tokens (pre ++ s) next ts ≡ some n
    → (rest : Bytes) × Skips ts s rest × (n + length rest ≡ length (pre ++ s))
match_tokens_sound pre s [] next n e h =
    let same : next ≡ n = some-inj (rw (match_tokens-nil (pre ++ s) next) at h) in
    (s, refl, omega (arith, length-append pre s))
match_tokens_sound pre s (t ∷ ts) next n e h = elim (find_at-cases s t) [
  | inl no_match ↦ absurd (cc (match_tokens-none pre s t ts next e no_match))
  | inr (gap, r, at, split) ↦
      let whole : pre ++ s ≡ (pre ++ (gap ++ t)) ++ r = rw split (regroup pre gap t r) in
      let h' : match_tokens ((pre ++ (gap ++ t)) ++ r) (next + length gap + length t) ts ≡ some n =
        rw (← whole) (sym (match_tokens-some pre s t ts next (length gap) e at) ∙ h) in
      let (rest, skips, total) =
        match_tokens_sound (pre ++ (gap ++ t)) r ts (next + length gap + length t) n
          (regroup_length pre gap t next e) h' in
      (rest, (gap, r, split, skips), rw whole total)
]

pub match_tokens_complete :
    (pre s more rest : Bytes) (ts : List Bytes) (next : ℕ)
    → next ≡ length pre
    → Skips ts s rest
    → (n : ℕ) × (match_tokens (pre ++ (more ++ s)) next ts ≡ some n)
match_tokens_complete pre s more rest [] next e d =
    (next, match_tokens-nil (pre ++ (more ++ s)) next)
match_tokens_complete pre s more rest (t ∷ ts) next e (gap, r, split, d) =
    let here : more ++ s ≡ (more ++ gap) ++ (t ++ r) =
      rw split (sym (append_assoc more gap (t ++ r))) in
    let (g, r', extra, at, split', suffix) = find_at-least (more ++ gap) t r in
    let whole : pre ++ (more ++ s) ≡ (pre ++ (g ++ t)) ++ (extra ++ r) =
      rw (here, split', suffix) (regroup pre g t (extra ++ r)) in
    let (n, ih) =
      match_tokens_complete (pre ++ (g ++ t)) r extra rest ts (next + length g + length t)
        (regroup_length pre g t next e) d in
    (n, match_tokens-some pre (more ++ s) t ts next (length g) e (rw here at) ∙ rw whole ih)
