-- ===== src/Util/Strings/Split.antt =====
-- `split_string` and `str_join` undo one another.
use bpftrace.Util.Strings.{split_loop, split_string, join_loop, str_join}
use bpftrace.Prelude.{
  ℕ, ◌≡◌, sym, ap, ◌≢◌, false, List, [], ◌∷◌, ◌++◌, arith, Bytes, refl, ◌∙◌, text_eq_iff,
}
use mathlib.Core.List.{append-nil, append_assoc}

-- No byte is the delimiter.
abbrev pub Free : ℕ → Bytes → Type 0
Free d [] = Unit
Free d (c ∷ s) = (c ≢ d) × Free d s

-- Elements without the delimiter, the last of which holds something.
abbrev pub Splits : ℕ → List Bytes → Type 0
Splits d [] = ⊥
Splits d (e ∷ []) = Free d e × (e ≢ [])
Splits d (e ∷ f ∷ l) = Free d e × Splits d (f ∷ l)

split_loop-Free :
    (d : ℕ) (value e rest : Bytes)
    → Free d e
    → split_loop d false value (e ++ d ∷ rest) ≡ (value ++ e) ∷ split_loop d false [] rest
unfolding split_loop
split_loop-Free d value [] rest h = rw append-nil (ground arith)
split_loop-Free d value (c ∷ e) rest h =
    ground (arith, split_loop-Free d (value ++ c ∷ []) e rest h.1, append_assoc value (c ∷ []) e)

split_loop-last :
    (d : ℕ) (value e : Bytes)
    → Free d e
    → value ++ e ≢ []
    → split_loop d false value e ≡ (value ++ e) ∷ []
unfolding split_loop
split_loop-last d value [] h n =
    rw append-nil (ground (arith, append-nil value, text_eq_iff value []))
split_loop-last d value (c ∷ e) h n =
    ground (arith, split_loop-last d (value ++ c ∷ []) e h.1, append_assoc value (c ∷ []) e)

join_loop-append :
    (delim str : Bytes) (l : List Bytes)
    → join_loop delim false str l ≡ str ++ join_loop delim false [] l
unfolding join_loop
join_loop-append delim str [] = sym (append-nil str)
join_loop-append delim str (e ∷ l) =
    join_loop-append delim (str ++ delim ++ e) l
    ∙ rw (join_loop-append delim (delim ++ e) l) (simp append_assoc)

pub str_join-cons :
    (delim e f : Bytes) (l : List Bytes)
    → str_join (e ∷ f ∷ l) delim ≡ e ++ (delim ++ str_join (f ∷ l) delim)
unfolding str_join join_loop
str_join-cons delim e f l =
    join_loop-append delim (e ++ delim ++ f) l ∙ rw (join_loop-append delim f l) (simp append_assoc)

pub str_join-one : (delim e : Bytes) → str_join (e ∷ []) delim ≡ e
unfolding str_join join_loop
str_join-one delim e = refl

-- Elements that are joined by a delimiter which stands in none of them are found again, if the last
-- one is not empty.
pub split_string-str_join :
    (d : ℕ) (l : List Bytes) → Splits d l → split_string (str_join l (d ∷ [])) d false ≡ l
unfolding split_string
split_string-str_join d [] h = absurd h
split_string-str_join d (e ∷ []) h = rw (str_join-one (d ∷ []) e) (split_loop-last d [] e h.0 h.1)
split_string-str_join d (e ∷ f ∷ l) h = rw (str_join-cons (d ∷ []) e f l) (
    split_loop-Free d [] e (str_join (f ∷ l) (d ∷ [])) h.0
    ∙ ap (λ u. e ∷ u) (split_string-str_join d (f ∷ l) h.1))
