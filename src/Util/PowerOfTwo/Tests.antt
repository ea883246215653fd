-- ===== src/Util/PowerOfTwo/Tests.antt =====
-- Powers of two: a run of src/util/math.cpp, and an instance of the theorem.
use bpftrace.Util.PowerOfTwo.{round_up_to_next_power_of_two, smear}
use bpftrace.Util.PowerOfTwo.Next.{round_up_to_next_power_of_two_lem}
use bpftrace.Prelude.{ℕ, ◌*◌, ◌^◌, ◌≤◌, ◌<◌, ◌≡◌, refl, some, arith}

round_up_five : round_up_to_next_power_of_two 5 ≡ some 8
unfolding round_up_to_next_power_of_two smear
round_up_five = refl

round_up_to_next_power_of_two_lem_example :
    (e : ℕ) × (round_up_to_next_power_of_two 2147483648 ≡ some (2 ^ e))
    × (2147483648 ≤ 2 ^ e)
    × (2 ^ e < 2 * 2147483648)
round_up_to_next_power_of_two_lem_example =
    round_up_to_next_power_of_two_lem 2147483648 (omega arith) (omega arith)
