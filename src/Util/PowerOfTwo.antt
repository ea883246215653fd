-- ===== src/Util/PowerOfTwo.antt =====
-- src/util/math.cpp: the next power of two.
mod Smear
pub mod Next
mod Tests
use bpftrace.Prelude.{ℕ, ◌+◌, ◌-◌, ◌/◌, ◌%◌, ◌^◌, Option, none, some, ltb, ◌==◌, if◌then◌else◌}
use Prim.Native.Nat.{bit_or}

-- `n |= n >> k`, where `d` is the power `2 ^ k`.
abbrev pub or_shifted : ℕ → ℕ → ℕ
or_shifted d n = bit_or n (n / d)

-- The five lines that copy the highest bit to all bits below it.
unfoldable pub smear : ℕ → ℕ
smear n = or_shifted 65536 (or_shifted 256 (or_shifted 16 (or_shifted 4 (or_shifted 2 n))))

-- `none` is the failed assertion.
unfoldable pub round_up_to_next_power_of_two : ℕ → Option ℕ
round_up_to_next_power_of_two n =
    if n == 0 then some 0 else if ltb (2 ^ 31) n then none else some ((smear (n - 1) + 1) % 2 ^ 32)
