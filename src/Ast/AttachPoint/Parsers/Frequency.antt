-- ===== src/Ast/AttachPoint/Parsers/Frequency.antt =====
-- The rates of `profile` and `interval` probes.
use bpftrace.Prelude.{
  ℕ, ◌/◌, ◌^◌, ◌≤◌, ◌<◌, ◌≡◌, refl, inl, inr, false, [], ◌∷◌, arith, ltb, lt→ltb, Bool-cases, Bytes,
  codes,
}
use bpftrace.Ast.AttachPoint.{invalid_state, AttachPoint, pos, ok_state, Parsed}
use bpftrace.Ast.AttachPoint.Parsers.{
  to_int64, frequency_parser, Result, has_wildcard, to_uint, set_rate, ok, err,
}
use bpftrace.Util.Strtoull.{uint64_max}
use bpftrace.Util.IntParser.Bounds.{to_uint-le}

to_int64-small : (n : ℕ) → n < 2 ^ 63 → to_int64 n ≡ pos n
to_int64-small n h = rw (lt→ltb n (2 ^ 63) h) refl

wrong_state : invalid_state ≡ ok_state → ⊥
wrong_state h = cc

-- A rate that is kept, in microseconds, from its nanoseconds.
abbrev pub IsRate : Bytes → Parsed → Type 0
IsRate rate p =
    (n : ℕ) × (to_uint rate 0 ≡ ok n)
    × (1000 ≤ n)
    × (p.1.target ≡ codes "us")
    × (p.1.freq ≡ pos (n / 1000))

rate-bounds :
    (point : AttachPoint) (n : ℕ)
    → n ≤ uint64_max
    → (set_rate point (ok n)).0 ≡ ok_state
    → (1000 ≤ n)
      × ((set_rate point (ok n)).1.target ≡ codes "us")
      × ((set_rate point (ok n)).1.freq ≡ pos (n / 1000))
rate-bounds point n b h = elim (Bool-cases (ltb n 1000)) [
  | inl t ↦ absurd (wrong_state (rw t at h))
  | inr f ↦ (ground (arith, f), rw f refl, rw f (to_int64-small (n / 1000) (omega (arith, b))))
]

set_rate-IsRate :
    (point : AttachPoint) (rate : Bytes) (r : Result ℕ)
    → to_uint rate 0 ≡ r
    → (set_rate point r).0 ≡ ok_state
    → IsRate rate (set_rate point r)
set_rate-IsRate point rate (ok n) e h =
    let (low, t, f) = rate-bounds point n (to_uint-le rate 0 e) h in (n, e, low, t, f)
set_rate-IsRate point rate (err x) e h = absurd (wrong_state h)

-- A rate alone, without wildcards, is accepted only where it is a number of at least 1000
-- nanoseconds, and is kept as a whole number of microseconds, at least one, which no conversion has
-- changed.
pub frequency_parser-IsRate :
    (point : AttachPoint) (p rate : Bytes)
    → has_wildcard rate ≡ false
    → (frequency_parser point (p ∷ rate ∷ [])).0 ≡ ok_state
    → IsRate rate (frequency_parser point (p ∷ rate ∷ []))
unfolding frequency_parser
frequency_parser-IsRate point p rate w h =
    rw w (set_rate-IsRate point rate (to_uint rate 0) refl (rw w at h))
