-- ===== src/Ast/IntegerTypes/Smallest.antt =====
-- The type of a literal is the smallest that holds it.
use bpftrace.Prelude.{
  ℕ, ◌/◌, ◌≤◌, ◌≡◌, ◌⊎◌, Bool, false, arith, if◌then◌else◌, inl, inr, true, none, some, leb,
}
use bpftrace.Prelude.Int.{ℤ, pos, negsuc}
use bpftrace.Types.{SizedType, size_bits}
use bpftrace.Ast.IntegerTypes.{get_integer_type, get_signed_integer_type, signed_type_of_unsigned}
use bpftrace.Types.Ranges.{Holds}
use bpftrace.Util.Strtoull.{uint64_max}

-- A width of an integer type.
abbrev pub IsWidth : ℕ → Type 0
IsWidth bits = (bits ≡ 8) ⊎ ((bits ≡ 16) ⊎ ((bits ≡ 32) ⊎ (bits ≡ 64)))

-- The integer is in the range of the type, and in that of no narrower integer type of the same sign.
abbrev pub Smallest : Bool → ℤ → SizedType → Type 0
Smallest s x t =
    Holds (size_bits t / 8) s x
    × ((bits : ℕ) → IsWidth bits → Holds (bits / 8) s x → size_bits t ≤ bits)

-- A width among the four, by its value.
width-cases : (P : ℕ → Type 0) → P 8 → P 16 → P 32 → P 64 → (bits : ℕ) → IsWidth bits → P bits
width-cases P a b c d bits (inl e) = rw e a
width-cases P a b c d bits (inr (inl e)) = rw e b
width-cases P a b c d bits (inr (inr (inl e))) = rw e c
width-cases P a b c d bits (inr (inr (inr e))) = rw e d

-- The type of an unsigned literal of 64 bits holds it, and no narrower unsigned type does.
pub get_integer_type-Smallest :
    (n : ℕ) → n ≤ uint64_max → Smallest false (pos n) (get_integer_type n)
unfolding get_integer_type
get_integer_type-Smallest n h = (
  ground (arith, h),
  width-cases (λ bits. Holds (bits / 8) false (pos n) → size_bits (get_integer_type n) ≤ bits)
      (ground (arith, h)) (ground (arith, h)) (ground (arith, h)) (ground (arith, h)),
)

-- The type of a signed literal of 64 bits holds it, and no narrower signed type does.
get_signed_integer_type-Smallest :
    (x : ℤ) → Holds 8 true x → Smallest true x (get_signed_integer_type x)
unfolding get_signed_integer_type
get_signed_integer_type-Smallest (pos n) h = (
  ground (arith, h.1),
  width-cases
      (λ bits. Holds (bits / 8) true (pos n) → size_bits (get_signed_integer_type (pos n)) ≤ bits)
      (ground arith) (ground arith) (ground arith) (ground arith),
)
get_signed_integer_type-Smallest (negsuc n) h = (
  ground (arith, h.0),
  width-cases
      (λ bits.
        Holds (bits / 8) true (negsuc n) → size_bits (get_signed_integer_type (negsuc n)) ≤ bits)
      (ground arith) (ground arith) (ground arith) (ground arith),
)

-- The type of an unsigned value in a signed integer: none where the value is too large for 64 bits
-- with a sign, and else the type that the value has as a signed integer.
signed_type-unsigned :
    (n : ℕ)
    → signed_type_of_unsigned n
      ≡ (if leb n 0x7fff_ffff_ffff_ffff then some (get_signed_integer_type (pos n)) else none)
unfolding signed_type_of_unsigned get_signed_integer_type
signed_type-unsigned n = ground arith
