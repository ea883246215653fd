-- ===== src/Util/Wildcard.antt =====
-- src/util/wildcard.cpp: patterns with `*`.
mod Search
mod Sound
mod Meaning
mod Tests
use mathlib.Core.Option
use bpftrace.Util.Strings.{split_string}
use bpftrace.Prelude.{
  ℕ, suc, ◌+◌, ◌-◌, ◌*◌, ◌/◌, ap, Bool, false, not, ◌&&◌, ◌||◌, Option, none, some, List, [], ◌∷◌,
  map, leb, ◌==◌, if◌then◌else◌, length, drop, Bytes, text_eq, starts_with,
}

-- `find` on a text: the first position at which the needle stands.
unfoldable pub find_at : Bytes → Bytes → Option ℕ
find_at [] needle = elim needle [ [] ↦ some 0 | c ∷ t ↦ none ]
find_at (c ∷ s) needle =
    if starts_with (c ∷ s) needle then some 0 else Option.map suc (find_at s needle)

-- `str.find(needle, from)`.
unfoldable pub find : Bytes → Bytes → ℕ → Option ℕ
find str needle from =
    if leb from (length str)
    then Option.map (λ k. from + k) (find_at (drop from str) needle)
    else none

-- `str.find(c) != npos` for a single byte.
unfoldable pub contains_byte : Bytes → ℕ → Bool
contains_byte [] c = false
contains_byte (d ∷ s) c = d == c || contains_byte s c

unfoldable pub has_wildcard : Bytes → Bool
unfolding contains_byte
has_wildcard str = contains_byte str b'*' || (contains_byte str b'[' && contains_byte str b']')

-- Whether the last byte is a star.
unfoldable pub ends_with_star : Bytes → Bool
ends_with_star [] = false
ends_with_star (c ∷ s) = elim s [ [] ↦ c == b'*' | d ∷ t ↦ ends_with_star s ]

abbrev pub starts_with_star : Bytes → Bool
starts_with_star [] = false
starts_with_star (c ∷ s) = c == b'*'

unfoldable pub drop_empty : List Bytes → List Bytes
drop_empty [] = []
drop_empty (t ∷ ts) = if text_eq t [] then drop_empty ts else t ∷ drop_empty ts

-- The tokens, `start_wildcard` and `end_wildcard`; on an empty input the flags stay as they are.
unfoldable pub get_wildcard_tokens : Bytes → Bool → Bool → List Bytes × Bool × Bool
unfolding drop_empty ends_with_star
get_wildcard_tokens [] start_wildcard end_wildcard = ([], start_wildcard, end_wildcard)
get_wildcard_tokens (c ∷ input) start_wildcard end_wildcard = (
  drop_empty (split_string (c ∷ input) b'*' false),
  starts_with_star (c ∷ input),
  ends_with_star (c ∷ input),
)

-- The loop over the tokens: where it stops, if each was found.
unfoldable pub match_tokens : Bytes → ℕ → List Bytes → Option ℕ
match_tokens str next [] = some next
match_tokens str next (token ∷ tokens) = elim (find str token next) [
  | none ↦ none
  | some found ↦ match_tokens str (found + length token) tokens
]

-- `tokens[0]`, read only where the pattern does not start with a star; there is none to read in an
-- empty list, which `none` stands for.
unfoldable pub anchored : Bytes → List Bytes → Option Bool
anchored str [] = none
anchored str (token ∷ tokens) = some (elim (find str token 0) [ none ↦ false | some k ↦ k == 0 ])

-- The end of `wildcard_match`.
unfoldable pub ends_at : Bytes → Bool → Option ℕ → Bool
ends_at str end_wildcard none = false
ends_at str end_wildcard (some next) = end_wildcard || length str == next

unfoldable pub wildcard_match : Bytes → List Bytes → Bool → Bool → Option Bool
wildcard_match str tokens start_wildcard end_wildcard =
    let matched = ends_at str end_wildcard (match_tokens str 0 tokens) in
    if start_wildcard
    then some matched
    else elim (anchored str tokens) [ none ↦ none | some at_start ↦ some (at_start && matched) ]
