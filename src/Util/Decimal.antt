-- ===== src/Util/Decimal.antt =====
-- `std::to_string` of an unsigned 64-bit integer.
pub mod Read
use bpftrace.Prelude.{ℕ, zero, suc, ◌+◌, ◌-◌, ◌/◌, ◌%◌, some, [], ◌∷◌, ltb, if◌then◌else◌, Bytes}

-- The decimal digits of a number, before some text; twenty are enough for 64 bits.
unfoldable pub digits : ℕ → ℕ → Bytes → Bytes
digits zero v behind = behind
digits (suc n) v behind =
    let more = digits n (v / 10) ((b'0' + v % 10) ∷ behind) in
    if ltb v 10 then (b'0' + v) ∷ behind else more

unfoldable pub to_string : ℕ → Bytes
unfolding digits
to_string v = digits 20 v []
