-- ===== src/Types/Order.antt =====
-- `IsEqual`, `IsSameType` and `FitsInto` as relations.
use bpftrace.Types.{
  Kind, string, SizedType, SizedTypes, integer, sized, pointer, array, record_t, tuple, none_left,
  field, kind_index, field_count, is_same_type, are_same_type, is_equal, are_equal, integer_fits,
  fits_into, all_fit_into, bool_eq,
}
use bpftrace.Prelude.{
  ℕ, ◌≡◌, refl, Bool, true, false, ◌&&◌, arith, text_eq, text_eq_refl, text_eq_iff, ◌/◌, ◌∙◌, ◌==◌,
  Bytes, leb, ==_iff, if◌then◌else◌, sym,
}

mutual
  unfolding is_same_type

  is_same_type_refl : (t : SizedType) → is_same_type t t ≡ true
  is_same_type_refl (integer b s n) = refl
  is_same_type_refl (sized k b s) = ground arith
  is_same_type_refl (pointer p) = is_same_type_refl p
  is_same_type_refl (array b n e) = refl
  is_same_type_refl (record_t n b a) = text_eq_refl n
  is_same_type_refl (tuple b a fs) = ground (arith, are_same_type_refl fs)

  are_same_type_refl : (ts : SizedTypes) → are_same_type ts ts ≡ true
  are_same_type_refl none_left = refl
  are_same_type_refl (field t ts) = ground (arith, is_same_type_refl t, are_same_type_refl ts)

bool_eq_refl : (b : Bool) → bool_eq b b ≡ true
bool_eq_refl true = refl
bool_eq_refl false = refl

mutual
  unfolding is_equal

  is_equal_refl : (t : SizedType) → is_equal t t ≡ true
  is_equal_refl (integer b s n) = ground (arith, bool_eq_refl s)
  is_equal_refl (sized k b s) = ground (arith, bool_eq_refl s)
  is_equal_refl (pointer p) = is_equal_refl p
  is_equal_refl (array b n e) = ground (arith, is_equal_refl e)
  is_equal_refl (record_t n b a) = ground (arith, text_eq_refl n)
  is_equal_refl (tuple b a fs) = ground (arith, are_equal_refl fs)

  are_equal_refl : (ts : SizedTypes) → are_equal ts ts ≡ true
  are_equal_refl none_left = refl
  are_equal_refl (field t ts) = ground (arith, is_equal_refl t, are_equal_refl ts)

and_intro : {a b : Bool} → a ≡ true → b ≡ true → (a && b) ≡ true
and_intro h k = rw (h, k)

sized-fits_refl : (k : Kind) (b : ℕ) (s : Bool) → fits_into (sized k b s) (sized k b s) ≡ true
unfolding fits_into
sized-fits_refl string b s = ground arith
sized-fits_refl k b s = ground (arith, bool_eq_refl s)

mutual
  unfolding fits_into

  fits_into_refl : (t : SizedType) → fits_into t t ≡ true
  fits_into_refl (integer b s n) = ground (arith, bool_eq_refl s)
  fits_into_refl (sized k b s) = sized-fits_refl k b s
  fits_into_refl (pointer p) = and_intro (is_same_type_refl p) (is_equal_refl p)
  fits_into_refl (array b n e) = ground (arith, is_equal_refl e)
  fits_into_refl (record_t n b a) = ground (arith, text_eq_refl n)
  fits_into_refl (tuple b a fs) = ground (arith, are_same_type_refl fs, all_fit_into_refl fs)

  all_fit_into_refl : (ts : SizedTypes) → all_fit_into ts ts ≡ true
  all_fit_into_refl none_left = refl
  all_fit_into_refl (field t ts) = ground (arith, fits_into_refl t, all_fit_into_refl ts)

eq_text_trans : (a b c : Bytes) → text_eq b a ≡ true → text_eq c b ≡ true → text_eq c a ≡ true
eq_text_trans a b c h k = (text_eq_iff c a).1 ((text_eq_iff c b).0 k ∙ (text_eq_iff b a).0 h)

eq_trans : (a b c : ℕ) → (a == b) ≡ true → (b == c) ≡ true → (a == c) ≡ true
eq_trans a b c h k = ground arith

and_left : (a b : Bool) → (a && b) ≡ true → a ≡ true
and_left true b h = refl
and_left false b h = cc

and_right : (a b : Bool) → (a && b) ≡ true → b ≡ true
and_right true b h = h
and_right false b h = cc

mutual
  unfolding is_same_type

  is_same_type_trans :
      (t u v : SizedType)
      → is_same_type t u ≡ true
      → is_same_type u v ≡ true
      → is_same_type t v ≡ true
  is_same_type_trans (integer b s n) (integer c z m) v h k = k
  is_same_type_trans (sized k b s) (sized l c z) (sized j d y) p q =
      eq_trans (kind_index k) (kind_index l) (kind_index j) p q
  is_same_type_trans (pointer p) (pointer q) (pointer r) h k = is_same_type_trans p q r h k
  is_same_type_trans (array b n e) (array c m f) v h k = k
  is_same_type_trans (record_t n b a) (record_t m c d) (record_t o e f) h k =
      eq_text_trans n m o h k
  is_same_type_trans (tuple b a fs) (tuple c d gs) (tuple e f hs) h k =
      and_intro
        (eq_trans (field_count fs) (field_count gs) (field_count hs) (and_left _ _ h)
          (and_left _ _ k))
        (are_same_type_trans fs gs hs
          ((==_iff (field_count fs) (field_count gs)).0 (and_left _ _ h)) (and_right _ _ h)
          (and_right _ _ k))
  is_same_type_trans _ _ _ h k = cc

  are_same_type_trans :
      (ts us vs : SizedTypes)
      → field_count ts ≡ field_count us
      → are_same_type ts us ≡ true
      → are_same_type us vs ≡ true
      → are_same_type ts vs ≡ true
  are_same_type_trans none_left us vs n h k = refl
  are_same_type_trans (field t ts) us none_left n h k = refl
  are_same_type_trans (field t ts) none_left (field v vs) n h k = absurd (omega arith)
  are_same_type_trans (field t ts) (field u us) (field v vs) n h k =
      and_intro (is_same_type_trans t u v (and_left _ _ h) (and_left _ _ k))
        (are_same_type_trans ts us vs (omega arith) (and_right _ _ h) (and_right _ _ k))

bool_eq_trans : (a b c : Bool) → bool_eq a b ≡ true → bool_eq b c ≡ true → bool_eq a c ≡ true
bool_eq_trans true true c h k = k
bool_eq_trans true false c h k = cc
bool_eq_trans false true c h k = cc
bool_eq_trans false false c h k = k

mutual
  unfolding is_equal

  is_equal_trans :
      (t u v : SizedType) → is_equal t u ≡ true → is_equal u v ≡ true → is_equal t v ≡ true
  is_equal_trans (integer b s n) (integer c z m) (integer d y o) h k =
      and_intro (eq_trans (b / 8) (c / 8) (d / 8) (and_left _ _ h) (and_left _ _ k))
        (bool_eq_trans s z y (and_right _ _ h) (and_right _ _ k))
  is_equal_trans (sized x b s) (sized y c z) (sized w d v) h k =
      and_intro
        (eq_trans (kind_index x) (kind_index y) (kind_index w) (and_left _ _ h) (and_left _ _ k))
        (and_intro
          (eq_trans (b / 8) (c / 8) (d / 8) (and_left _ _ (and_right _ _ h))
            (and_left _ _ (and_right _ _ k)))
          (bool_eq_trans s z v (and_right _ _ (and_right _ _ h)) (and_right _ _ (and_right _ _ k))))
  is_equal_trans (pointer p) (pointer q) (pointer r) h k = is_equal_trans p q r h k
  is_equal_trans (array b n e) (array c m f) (array d o g) h k =
      and_intro (eq_trans n m o (and_left _ _ h) (and_left _ _ k))
        (is_equal_trans e f g (and_right _ _ h) (and_right _ _ k))
  is_equal_trans (record_t n b a) (record_t m c d) (record_t o e f) h k =
      and_intro (eq_text_trans o m n (and_left _ _ k) (and_left _ _ h))
        (eq_trans (b / 8) (c / 8) (e / 8) (and_right _ _ h) (and_right _ _ k))
  is_equal_trans (tuple b a fs) (tuple c d gs) (tuple e f hs) h k =
      and_intro
        (eq_trans (field_count fs) (field_count gs) (field_count hs) (and_left _ _ h)
          (and_left _ _ k))
        (are_equal_trans fs gs hs ((==_iff (field_count fs) (field_count gs)).0 (and_left _ _ h))
          (and_right _ _ h) (and_right _ _ k))
  is_equal_trans _ _ _ h k = cc

  are_equal_trans :
      (ts us vs : SizedTypes)
      → field_count ts ≡ field_count us
      → are_equal ts us ≡ true
      → are_equal us vs ≡ true
      → are_equal ts vs ≡ true
  are_equal_trans none_left us vs n h k = refl
  are_equal_trans (field t ts) us none_left n h k = refl
  are_equal_trans (field t ts) none_left (field v vs) n h k = absurd (omega arith)
  are_equal_trans (field t ts) (field u us) (field v vs) n h k =
      and_intro (is_equal_trans t u v (and_left _ _ h) (and_left _ _ k))
        (are_equal_trans ts us vs (omega arith) (and_right _ _ h) (and_right _ _ k))

integer_fits_trans :
    (a b c : ℕ) (s t u : Bool)
    → integer_fits a s b t ≡ true
    → integer_fits b t c u ≡ true
    → integer_fits a s c u ≡ true
unfolding integer_fits
integer_fits_trans a b c s t u h k = ground arith

leb_trans : (a b c : ℕ) → leb a b ≡ true → leb b c ≡ true → leb a c ≡ true
leb_trans a b c h k = ground arith

-- A fit between types that are no integers, strings or tuples: the same type, and equal.
same_and_equal_trans :
    (t u v : SizedType)
    → (is_same_type t u && is_equal t u) ≡ true
    → (is_same_type u v && is_equal u v) ≡ true
    → (is_same_type t v && is_equal t v) ≡ true
same_and_equal_trans t u v h k =
    and_intro (is_same_type_trans t u v (and_left _ _ h) (and_left _ _ k))
      (is_equal_trans t u v (and_right _ _ h) (and_right _ _ k))

-- A fit between types without an inner type, by the numbers of their kinds.
fits_into-kinds :
    (k l : Kind) (b c : ℕ) (s t : Bool)
    → fits_into (sized k b s) (sized l c t) ≡ (
        if kind_index k == 17 && kind_index l == 17
        then leb (b / 8) (c / 8)
        else (kind_index k == kind_index l && (b / 8 == c / 8 && bool_eq s t)))
unfolding fits_into is_same_type is_equal kind_index
fits_into-kinds string string b c s t = refl
fits_into-kinds string l b c s t = ground arith
fits_into-kinds k l b c s t = ground arith

kinds-fit_trans :
    (k l j b c d : ℕ) (s t u : Bool)
    → (if k == 17 && l == 17 then leb b c else (k == l && (b == c && bool_eq s t))) ≡ true
    → (if l == 17 && j == 17 then leb c d else (l == j && (c == d && bool_eq t u))) ≡ true
    → (if k == 17 && j == 17 then leb b d else (k == j && (b == d && bool_eq s u))) ≡ true
kinds-fit_trans k l j b c d s t u h q = ground arith

sized-fits_trans :
    (k l j : Kind) (b c d : ℕ) (s t u : Bool)
    → fits_into (sized k b s) (sized l c t) ≡ true
    → fits_into (sized l c t) (sized j d u) ≡ true
    → fits_into (sized k b s) (sized j d u) ≡ true
sized-fits_trans k l j b c d s t u h q =
    fits_into-kinds k j b d s u
    ∙ kinds-fit_trans (kind_index k) (kind_index l) (kind_index j) (b / 8) (c / 8) (d / 8) s t u
        (sym (fits_into-kinds k l b c s t) ∙ h) (sym (fits_into-kinds l j c d t u) ∙ q)

absurd_bool : {a : Bool} → false ≡ true → a ≡ true
absurd_bool h = cc

abbrev is_sized : SizedType → Bool
is_sized (sized k b s) = true
is_sized _ = false

fits_into-sized_only :
    (k : Kind) (b : ℕ) (s : Bool) (u : SizedType)
    → fits_into (sized k b s) u ≡ true
    → is_sized u ≡ true
unfolding fits_into is_same_type is_equal
fits_into-sized_only k b s (sized l c t) h = refl
fits_into-sized_only string b s u h = cc
fits_into-sized_only k b s u h = cc

mutual
  unfolding fits_into

  fits_into_trans :
      (t u v : SizedType) → fits_into t u ≡ true → fits_into u v ≡ true → fits_into t v ≡ true
  fits_into_trans (integer b s n) (integer c z m) (integer d y o) h k =
      integer_fits_trans (b / 8) (c / 8) (d / 8) s z y h k
  fits_into_trans (sized k b s) (sized l c z) (sized j d y) h q =
      sized-fits_trans k l j b c d s z y h q
  fits_into_trans (pointer p) (pointer q) (pointer r) h k =
      same_and_equal_trans (pointer p) (pointer q) (pointer r) h k
  fits_into_trans (array b n e) (array c m f) (array d o g) h k =
      same_and_equal_trans (array b n e) (array c m f) (array d o g) h k
  fits_into_trans (record_t n b a) (record_t m c d) (record_t o e f) h k =
      same_and_equal_trans (record_t n b a) (record_t m c d) (record_t o e f) h k
  fits_into_trans (tuple b a fs) (tuple c d gs) (tuple e f hs) h k =
      and_intro
        (is_same_type_trans (tuple b a fs) (tuple c d gs) (tuple e f hs) (and_left _ _ h)
          (and_left _ _ k))
        (and_intro
          (eq_trans (field_count fs) (field_count gs) (field_count hs)
            (and_left _ _ (and_right _ _ h)) (and_left _ _ (and_right _ _ k)))
          (all_fit_into_trans fs gs hs
            ((==_iff (field_count fs) (field_count gs)).0 (and_left _ _ (and_right _ _ h)))
            (and_right _ _ (and_right _ _ h)) (and_right _ _ (and_right _ _ k))))
  fits_into_trans (sized k b s) (sized l c z) v h q = absurd_bool (fits_into-sized_only l c z v q)
  fits_into_trans (sized k b s) u v h q = absurd_bool (fits_into-sized_only k b s u h)
  fits_into_trans _ _ _ h k = cc

  all_fit_into_trans :
      (ts us vs : SizedTypes)
      → field_count ts ≡ field_count us
      → all_fit_into ts us ≡ true
      → all_fit_into us vs ≡ true
      → all_fit_into ts vs ≡ true
  all_fit_into_trans none_left us vs n h k = refl
  all_fit_into_trans (field t ts) us none_left n h k = refl
  all_fit_into_trans (field t ts) none_left (field v vs) n h k = absurd (omega arith)
  all_fit_into_trans (field t ts) (field u us) (field v vs) n h k =
      and_intro (fits_into_trans t u v (and_left _ _ h) (and_left _ _ k))
        (all_fit_into_trans ts us vs (omega arith) (and_right _ _ h) (and_right _ _ k))

-- `FitsInto` is a preorder on the types: every type fits into itself, and a type that fits into a
-- second one, which fits into a third, fits into the third, through tuples nested to any depth.
pub fits_into-preorder :
    (t u v : SizedType)
    → (fits_into t t ≡ true) × (fits_into t u ≡ true → fits_into u v ≡ true → fits_into t v ≡ true)
fits_into-preorder t u v = (fits_into_refl t, fits_into_trans t u v)
