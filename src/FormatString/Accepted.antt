-- ===== src/FormatString/Accepted.antt =====
-- Which arguments `FormatString::check` accepts.
use bpftrace.FormatString.{FormatSpec, FormatString}
use bpftrace.FormatString.Check.{
  Outcome, ok, err, check, check_types, check_type, find_required, is_none_ty, is_allowed,
  required_types, has_type, any_integer, buffer_type, Required, Error, check_allowed,
}
use bpftrace.Types.{SizedType, Kind, integer, sized, pointer, array, record_t, tuple}
use bpftrace.Prelude.{
  ℕ, ◌≡◌, ◌⊎◌, Bool, true, false, List, [], ◌∷◌, Bytes, codes, refl, inl, inr, some, Bool-cases,
  text_eq, text_eq_sound, Option-cases, suc, ap, ◌↔◌, arith, length,
}
use mathlib.Core.Path.{subst}

-- The types that count as integers.
pub data IsInteger : SizedType → Type 0 where
  an_integer : (bits : ℕ) (signed : Bool) (name : Bytes) → IsInteger (integer bits signed name)
  a_boolean : (bits : ℕ) (signed : Bool) → IsInteger (sized Kind.boolean bits signed)
  a_pointer : (pointee : SizedType) → IsInteger (pointer pointee)

pub data IsBuffer : SizedType → Type 0 where
  a_buffer : (bits : ℕ) (signed : Bool) → IsBuffer (sized Kind.buffer bits signed)

abbrev pub IsIntegerSpecifier : Bytes → Type 0
IsIntegerSpecifier s =
    (s ≡ codes "d")
    ⊎ (s ≡ codes "i")
    ⊎ (s ≡ codes "u")
    ⊎ (s ≡ codes "o")
    ⊎ (s ≡ codes "x")
    ⊎ (s ≡ codes "X")
    ⊎ (s ≡ codes "c")
    ⊎ (s ≡ codes "p")

abbrev pub IsBufferSpecifier : Bytes → Type 0
IsBufferSpecifier s = (s ≡ codes "r") ⊎ (s ≡ codes "rx") ⊎ (s ≡ codes "rh")

-- A specifier prints an argument: integers in the number formats, buffers in the hex dumps, and all
-- but the type none by `%s`.
pub data Accepts : Bytes → SizedType → Type 0 where
  as_integer : {s : Bytes} {t : SizedType} → IsIntegerSpecifier s → IsInteger t → Accepts s t
  as_buffer : {s : Bytes} {t : SizedType} → IsBufferSpecifier s → IsBuffer t → Accepts s t
  as_string : {s : Bytes} {t : SizedType} → s ≡ codes "s" → is_none_ty t ≡ false → Accepts s t

pub data AllAccept : List FormatSpec → List SizedType → Type 0 where
  end : AllAccept [] []
  next :
      {spec : FormatSpec} {specs : List FormatSpec} {t : SizedType} {ts : List SizedType}
      → Accepts spec.specifier t
      → AllAccept specs ts
      → AllAccept (spec ∷ specs) (t ∷ ts)

Outcome-cases : (o : Outcome) → (o ≡ ok) ⊎ ((e : Error) × (o ≡ err e))
Outcome-cases ok = inl refl
Outcome-cases (err e) = inr (e, refl)

abbrev Some : List Required → Type 0
Some [] = ⊥
Some (r ∷ rest) = Unit {0}

-- What the check makes of a type does not need its inner type.
is_allowed-IsInteger : (t : SizedType) → is_allowed t any_integer ≡ true → IsInteger t
unfolding is_allowed has_type
is_allowed-IsInteger (integer b s n) h = an_integer b s n
is_allowed-IsInteger (pointer p) h = a_pointer p
is_allowed-IsInteger (array b c e) h = cc
is_allowed-IsInteger (record_t n b a) h = cc
is_allowed-IsInteger (tuple b a fs) h = cc
is_allowed-IsInteger (sized Kind.boolean b s) h = a_boolean b s
is_allowed-IsInteger (sized _ b s) h = cc

IsInteger-is_allowed :
    {t : SizedType} → IsInteger t → (is_none_ty t ≡ false) × (is_allowed t any_integer ≡ true)
unfolding is_allowed has_type is_none_ty
IsInteger-is_allowed (an_integer b s n) = (refl, refl)
IsInteger-is_allowed (a_boolean b s) = (refl, refl)
IsInteger-is_allowed (a_pointer p) = (refl, refl)

is_allowed-IsBuffer : (t : SizedType) → is_allowed t (buffer_type ∷ []) ≡ true → IsBuffer t
unfolding is_allowed has_type
is_allowed-IsBuffer (sized Kind.buffer b s) h = a_buffer b s
is_allowed-IsBuffer (sized _ b s) h = cc
is_allowed-IsBuffer (integer b s n) h = cc
is_allowed-IsBuffer (pointer p) h = cc
is_allowed-IsBuffer (array b c e) h = cc
is_allowed-IsBuffer (record_t n b a) h = cc
is_allowed-IsBuffer (tuple b a fs) h = cc

IsBuffer-is_allowed :
    {t : SizedType} → IsBuffer t → (is_none_ty t ≡ false) × (is_allowed t (buffer_type ∷ []) ≡ true)
unfolding is_allowed has_type is_none_ty
IsBuffer-is_allowed (a_buffer b s) = (refl, refl)

-- What a row of the table may be.
abbrev Row : Bytes → List Required → Type 0
Row s types =
    (IsIntegerSpecifier s × (types ≡ any_integer))
    ⊎ (IsBufferSpecifier s × (types ≡ buffer_type ∷ []))
    ⊎ ((s ≡ codes "s") × (types ≡ []))

abbrev Rows : List (Bytes × List Required) → Type 0
Rows [] = Unit {0}
Rows ((name, types) ∷ rest) = Row name types × Rows rest

find_required-Row :
    (s : Bytes) (rows : List (Bytes × List Required)) (types : List Required)
    → Rows rows
    → find_required s rows ≡ some types
    → Row s types
unfolding find_required
find_required-Row s [] types w h = cc
find_required-Row s ((name, found) ∷ rest) types w h = elim (Bool-cases (text_eq name s)) [
  | inl t ↦
      let h' = rw t at h in
      subst (λ n. Row n types) (text_eq_sound name s t) (subst (λ f. Row name f) (cc) w.0)
  | inr f ↦ let h' = rw f at h in find_required-Row s rest types w.1 h'
]

required_types-Rows : Rows required_types
required_types-Rows = (
  inl (inl refl, refl),
  (
    inl (inr (inl refl), refl),
    (
      inl (inr (inr (inl refl)), refl),
      (
        inl (inr (inr (inr (inl refl))), refl),
        (
          inl (inr (inr (inr (inr (inl refl)))), refl),
          (
            inl (inr (inr (inr (inr (inr (inl refl))))), refl),
            (
              inl (inr (inr (inr (inr (inr (inr (inl refl)))))), refl),
              (
                inr (inl (inl refl, refl)),
                (
                  inr (inl (inr (inl refl), refl)),
                  (
                    inr (inl (inr (inr refl), refl)),
                    (
                      inr (inr (refl, refl)),
                      (inl (inr (inr (inr (inr (inr (inr (inr refl)))))), refl), tt),
                    ),
                  ),
                ),
              ),
            ),
          ),
        ),
      ),
    ),
  ),
)

find_required-integer :
    (s : Bytes) → IsIntegerSpecifier s → find_required s required_types ≡ some any_integer
unfolding find_required
find_required-integer s (inl e) = rw e refl
find_required-integer s (inr (inl e)) = rw e refl
find_required-integer s (inr (inr (inl e))) = rw e refl
find_required-integer s (inr (inr (inr (inl e)))) = rw e refl
find_required-integer s (inr (inr (inr (inr (inl e))))) = rw e refl
find_required-integer s (inr (inr (inr (inr (inr (inl e)))))) = rw e refl
find_required-integer s (inr (inr (inr (inr (inr (inr (inl e))))))) = rw e refl
find_required-integer s (inr (inr (inr (inr (inr (inr (inr e))))))) = rw e refl

find_required-buffer :
    (s : Bytes) → IsBufferSpecifier s → find_required s required_types ≡ some (buffer_type ∷ [])
unfolding find_required
find_required-buffer s (inl e) = rw e refl
find_required-buffer s (inr (inl e)) = rw e refl
find_required-buffer s (inr (inr e)) = rw e refl

find_required-string : find_required (codes "s") required_types ≡ some []
unfolding find_required
find_required-string = refl

module _ (spec : FormatSpec) (t : SizedType) where
  passed :
      (types : List Required)
      → Some types
      → check_allowed spec t (some types) ≡ ok
      → is_allowed t types ≡ true
  unfolding check_allowed
  passed [] w h = elim w [ ]
  passed (r ∷ rest) w h = ground (arith, h)

  check_allowed-Accepts :
      (types : List Required)
      → Row spec.specifier types
      → is_none_ty t ≡ false
      → check_allowed spec t (some types) ≡ ok
      → Accepts spec.specifier t
  check_allowed-Accepts types (inl (s, e)) n h =
      as_integer s (is_allowed-IsInteger t (passed any_integer tt (rw e at h)))
  check_allowed-Accepts types (inr (inl (s, e))) n h =
      as_buffer s (is_allowed-IsBuffer t (passed (buffer_type ∷ []) tt (rw e at h)))
  check_allowed-Accepts types (inr (inr (s, e))) n h = as_string s n

  check_type-Accepts : check_type spec t ≡ ok → Accepts spec.specifier t
  unfolding check_type check_allowed
  check_type-Accepts h = elim (Bool-cases (is_none_ty t)) [
    | inl n ↦ let h' = rw n at h in cc
    | inr n ↦ elim (Option-cases (find_required spec.specifier required_types)) [
      | inl e ↦ let h' = rw (n, e) at h in cc
      | inr (types, e) ↦
          check_allowed-Accepts types
            (find_required-Row spec.specifier required_types types required_types-Rows e) n
            (rw (n, e) at h)
    ]
  ]

  Accepts-check_type : Accepts spec.specifier t → check_type spec t ≡ ok
  unfolding check_type check_allowed
  Accepts-check_type (as_integer s i) =
      rw (IsInteger-is_allowed i).0
        (rw (find_required-integer spec.specifier s) (rw (IsInteger-is_allowed i).1 refl))
  Accepts-check_type (as_buffer s b) =
      rw (IsBuffer-is_allowed b).0
        (rw (find_required-buffer spec.specifier s) (rw (IsBuffer-is_allowed b).1 refl))
  Accepts-check_type (as_string s n) = rw n (rw s (rw find_required-string refl))

check_types-AllAccept :
    (specs : List FormatSpec) (types : List SizedType)
    → length types ≡ length specs
    → check_types specs types ≡ ok
    → AllAccept specs types
unfolding check_types
check_types-AllAccept [] [] n h = end
check_types-AllAccept [] (t ∷ ts) n h = absurd (omega (arith, n))
check_types-AllAccept (s ∷ specs) [] n h = absurd (omega (arith, n))
check_types-AllAccept (s ∷ specs) (t ∷ ts) n h = elim (Outcome-cases (check_type s t)) [
  | inl e ↦
      next (check_type-Accepts s t e)
        (check_types-AllAccept specs ts (omega (arith, n)) (rw (e, check_types) at h))
  | inr (error, e) ↦ let h' = rw (e, check_types) at h in cc
]

AllAccept-check_types :
    (specs : List FormatSpec) (types : List SizedType)
    → AllAccept specs types
    → (check_types specs types ≡ ok) × (length types ≡ length specs)
unfolding check_types
AllAccept-check_types [] [] end = (refl, refl)
AllAccept-check_types [] (t ∷ ts) a = elim a [ ]
AllAccept-check_types (s ∷ specs) [] a = elim a [ ]
AllAccept-check_types (s ∷ specs) (t ∷ ts) (next a rest) =
    let ih = AllAccept-check_types specs ts rest in
    (rw (Accepts-check_type s t a, check_types) ih.0, ap suc ih.1)

-- The check accepts exactly the arguments that are as many as the specifiers and that these print,
-- one by one: integers by the number formats, buffers by the hex dumps, and all but none by `%s`.
pub check-AllAccept :
    (fmt : FormatString) (types : List SizedType)
    → (check fmt types ≡ ok) ↔ AllAccept fmt.specs types
unfolding check
check-AllAccept fmt types = (
  λ h. check_types-AllAccept fmt.specs types (ground (arith, h)) (ground (arith, h)),
  λ a. let (c, n) = AllAccept-check_types fmt.specs types a in ground (arith, c, n),
)
