-- ===== src/Types/Ranges.antt =====
-- The integers of `FitsInto` and the values that they hold.
use bpftrace.Prelude.{ℕ, ◌-◌, ◌*◌, ◌^◌, ◌≤◌, ◌<◌, ◌≡◌, Bool, true, false, arith, ap, ◌∙◌, ◌↔◌}
use bpftrace.Prelude.Int.{ℤ, pos, negsuc, pos_part, neg_part}
use native.Mathlib.Nat.{pow-le-pow_right, pow-succ'}
use bpftrace.Types.{integer_fits}

-- The greatest integer of a type of so many bytes.
abbrev pub greatest : ℕ → Bool → ℕ
greatest size true = 2 ^ (8 * size - 1) - 1
greatest size false = 2 ^ (8 * size) - 1

-- The magnitude of the least.
abbrev pub least_magnitude : ℕ → Bool → ℕ
least_magnitude size true = 2 ^ (8 * size - 1)
least_magnitude size false = 0

abbrev pub Holds : ℕ → Bool → ℤ → Type 0
Holds size is_signed x =
    (neg_part x ≤ least_magnitude size is_signed) × (pos_part x ≤ greatest size is_signed)

bits : (n : ℕ) → 1 ≤ n → (2 ^ (8 * n) ≡ 2 * 2 ^ (8 * n - 1)) × (1 ≤ 2 ^ (8 * n - 1))
bits n h = (
  ap (λ k. 2 ^ k) (omega arith) ∙ pow-succ' 2 (8 * n - 1),
  pow-le-pow_right {n = 2} (omega arith) {i = 0} (omega arith),
)

bits_mono : (m n : ℕ) → m ≤ n → 2 ^ (8 * m - 1) ≤ 2 ^ (8 * n - 1)
bits_mono m n h = pow-le-pow_right {n = 2} (omega arith) (omega arith)

bits_lt : (m n : ℕ) → m < n → 2 ^ (8 * m) ≤ 2 ^ (8 * n - 1)
bits_lt m n h = pow-le-pow_right {n = 2} (omega arith) (omega arith)

fits-Holds :
    (size target : ℕ) (s t : Bool)
    → 1 ≤ size
    → 1 ≤ target
    → integer_fits size s target t ≡ true
    → (x : ℤ) → Holds size s x
    → Holds target t x
unfolding integer_fits
fits-Holds size target s t p q h x (l, g) =
    ground (arith, bits size p, bits target q, bits_mono size target, bits_lt size target)

Holds-fits :
    (size target : ℕ) (s t : Bool)
    → 1 ≤ size
    → 1 ≤ target
    → ((x : ℤ) → Holds size s x → Holds target t x)
    → integer_fits size s target t ≡ true
unfolding integer_fits
Holds-fits size target s t p q f = ground (
  arith,
  bits size p,
  bits target q,
  bits_mono target size,
  bits_lt target size,
  f (pos (greatest size s)),
  f (negsuc (least_magnitude size s - 1)),
)

-- On integer types of at least one byte, `FitsInto` holds exactly when every integer that the one
-- type holds, in two's complement where it is signed, is held by the other.
pub integer_fits_iff :
    (size target : ℕ) (s t : Bool)
    → 1 ≤ size
    → 1 ≤ target
    → integer_fits size s target t ≡ true ↔ ((x : ℤ) → Holds size s x → Holds target t x)
integer_fits_iff size target s t p q =
    (fits-Holds size target s t p q, Holds-fits size target s t p q)
