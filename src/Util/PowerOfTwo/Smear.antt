-- ===== src/Util/PowerOfTwo/Smear.antt =====
-- The bits of a number, copied downwards.
use bpftrace.Util.PowerOfTwo.{or_shifted, smear}
use Prim.Native.Nat.{digits, bit_or-bitwise, bit_or}
use bpftrace.Prelude.{
  ℕ, zero, suc, ◌+◌, ◌*◌, ◌/◌, ◌%◌, ◌≤◌, max, ◌≡◌, refl, sym, ap, ap₂, ◌∙◌, arith,
}

-- The law for the lowest digit, from the definition that the native operation stands for.
abbrev or_digits : ℕ → ℕ → ℕ → ℕ
or_digits n a b = digits (λ b. b) max n a b

or_digits_fuel : (n m a b : ℕ) → a ≤ n → a ≤ m → or_digits n a b ≡ or_digits m a b
or_digits_fuel zero zero a b p q = refl
or_digits_fuel zero (suc m) zero b p q = refl
or_digits_fuel zero (suc m) (suc a) b p q = absurd (omega arith)
or_digits_fuel (suc n) zero zero b p q = refl
or_digits_fuel (suc n) zero (suc a) b p q = absurd (omega arith)
or_digits_fuel (suc n) (suc m) zero b p q = refl
or_digits_fuel (suc n) (suc m) (suc a) b p q =
    omega (arith, or_digits_fuel n m (suc a / 2) (b / 2) (omega arith) (omega arith))

zero-bit_or : (b : ℕ) → bit_or 0 b ≡ b
zero-bit_or b = bit_or-bitwise 0 b

bit_or_step : (a b : ℕ) → bit_or a b ≡ bit_or (a / 2) (b / 2) * 2 + max (a % 2) (b % 2)
bit_or_step zero b = omega (arith, zero-bit_or b, zero-bit_or (b / 2))
bit_or_step (suc a) b = omega (
  arith,
  bit_or-bitwise (suc a) b,
  bit_or-bitwise (suc a / 2) (b / 2),
  or_digits_fuel a (suc a / 2) (suc a / 2) (b / 2) (omega arith) (omega arith),
)

bit_or-half : (a b : ℕ) → bit_or a b / 2 ≡ bit_or (a / 2) (b / 2)
bit_or-half a b = omega (arith, bit_or_step a b)

bit_or-low : (a b : ℕ) → bit_or a b % 2 ≡ max (a % 2) (b % 2)
bit_or-low a b = omega (arith, bit_or_step a b)

-- A function of the bits that does not depend on their places.
abbrev Shifts : (ℕ → ℕ) → Type 0
Shifts f = (x : ℕ) → f x / 2 ≡ f (x / 2)

-- What is left of the lowest bit tells that the bits below `d` are zeros.
abbrev Clears : (ℕ → ℕ) → ℕ → Type 0
Clears f d = (x : ℕ) → f x % 2 ≡ 0 → x % d ≡ 0

module _ (f : ℕ → ℕ) (s : Shifts f) where
  shift_4 : (x : ℕ) → f x / 4 ≡ f (x / 4)
  shift_4 x =
      let e : x / 2 / 2 ≡ x / 4 = omega arith in
      let g : f x / 4 ≡ f x / 2 / 2 = omega arith in g ∙ ap (λ y. y / 2) (s x) ∙ s (x / 2) ∙ ap f e

  shift_16 : (x : ℕ) → f x / 16 ≡ f (x / 16)
  shift_16 x =
      let e : x / 4 / 4 ≡ x / 16 = omega arith in
      let g : f x / 16 ≡ f x / 4 / 4 = omega arith in
      g ∙ ap (λ y. y / 4) (shift_4 x) ∙ shift_4 (x / 4) ∙ ap f e

  shift_256 : (x : ℕ) → f x / 256 ≡ f (x / 256)
  shift_256 x =
      let e : x / 16 / 16 ≡ x / 256 = omega arith in
      let g : f x / 256 ≡ f x / 16 / 16 = omega arith in
      g ∙ ap (λ y. y / 16) (shift_16 x) ∙ shift_16 (x / 16) ∙ ap f e

  shift_65536 : (x : ℕ) → f x / 65536 ≡ f (x / 65536)
  shift_65536 x =
      let e : x / 256 / 256 ≡ x / 65536 = omega arith in
      let g : f x / 65536 ≡ f x / 256 / 256 = omega arith in
      g ∙ ap (λ y. y / 256) (shift_256 x) ∙ shift_256 (x / 256) ∙ ap f e

-- One of the five lines keeps both, with twice as many bits.
or_shifted-Shifts :
    (d : ℕ) (f : ℕ → ℕ)
    → ((x : ℕ) → x / d / 2 ≡ x / 2 / d)
    → Shifts f
    → Shifts (λ x. or_shifted d (f x))
or_shifted-Shifts d f c s x =
    bit_or-half (f x) (f x / d) ∙ ap₂ bit_or (s x) (c (f x) ∙ ap (λ y. y / d) (s x))

or_shifted-low :
    (d : ℕ) (f : ℕ → ℕ) (x : ℕ)
    → f x / d ≡ f (x / d)
    → bit_or (f x) (f x / d) % 2 ≡ 0
    → (f x % 2 ≡ 0) × (f (x / d) % 2 ≡ 0)
or_shifted-low d f x e h =
    let m = sym (bit_or-low (f x) (f x / d)) ∙ h in
    let g = ap (λ y. y % 2) e in (omega (arith, m), omega (arith, m, g))

abbrev line_1 : ℕ → ℕ
line_1 x = or_shifted 2 x

abbrev line_2 : ℕ → ℕ
line_2 x = or_shifted 4 (line_1 x)

abbrev line_3 : ℕ → ℕ
line_3 x = or_shifted 16 (line_2 x)

abbrev line_4 : ℕ → ℕ
line_4 x = or_shifted 256 (line_3 x)

line_1-Shifts : Shifts line_1
line_1-Shifts = or_shifted-Shifts 2 (λ x. x) (λ x. refl) (λ x. refl)

line_2-Shifts : Shifts line_2
line_2-Shifts = or_shifted-Shifts 4 line_1 (λ x. omega arith) line_1-Shifts

line_3-Shifts : Shifts line_3
line_3-Shifts = or_shifted-Shifts 16 line_2 (λ x. omega arith) line_2-Shifts

line_4-Shifts : Shifts line_4
line_4-Shifts = or_shifted-Shifts 256 line_3 (λ x. omega arith) line_3-Shifts

pub smear-half : (x : ℕ) → smear x / 2 ≡ smear (x / 2)
unfolding smear
smear-half = or_shifted-Shifts 65536 line_4 (λ x. omega arith) line_4-Shifts

line_1-Clears : Clears line_1 4
line_1-Clears x h = let l = or_shifted-low 2 (λ y. y) x refl h in omega (arith, l.0, l.1)

line_2-Clears : Clears line_2 16
line_2-Clears x h =
    let l = or_shifted-low 4 line_1 x (shift_4 line_1 line_1-Shifts x) h in
    omega (arith, line_1-Clears x l.0, line_1-Clears (x / 4) l.1)

line_3-Clears : Clears line_3 256
line_3-Clears x h =
    let l = or_shifted-low 16 line_2 x (shift_16 line_2 line_2-Shifts x) h in
    omega (arith, line_2-Clears x l.0, line_2-Clears (x / 16) l.1)

line_4-Clears : Clears line_4 65536
line_4-Clears x h =
    let l = or_shifted-low 256 line_3 x (shift_256 line_3 line_3-Shifts x) h in
    omega (arith, line_3-Clears x l.0, line_3-Clears (x / 256) l.1)

pub smear-low : (x : ℕ) → smear x % 2 ≡ 0 → x % 4294967296 ≡ 0
unfolding smear
smear-low x h =
    let l = or_shifted-low 65536 line_4 x (shift_65536 line_4 line_4-Shifts x) h in
    omega (arith, line_4-Clears x l.0, line_4-Clears (x / 65536) l.1)
