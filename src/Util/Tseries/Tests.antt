-- ===== src/Util/Tseries/Tests.antt =====
-- The reduction of a bucket of four CPUs.
use bpftrace.Prelude.{ℕ, ◌+◌, ◌/◌, ◌%◌, ◌^◌, ◌≡◌, refl, some, List, [], ◌∷◌, ltb}
use bpftrace.Util.Tseries.{
  Arithmetic, Data, reduce_tseries_value, avg_func, add_buckets, add_bucket, combine,
}
use bpftrace.Util.Tseries.Latest.{latest_value, reduce-latest_value}

abbrev words : Arithmetic ℕ
words = record { plus = λ a b. (a + b) % 2 ^ 64; less = ltb; divide = ◌/◌ }

abbrev cpu : ℕ → ℕ → ℕ → Data ℕ
cpu v m e = record { val = v; meta = m; epoch = e }

abbrev bucket : List (Data ℕ)
bucket = cpu 10 2 5 ∷ cpu 1 1 4 ∷ cpu 0 0 0 ∷ cpu 8 4 5 ∷ []

reduce-latest_value_example :
    reduce_tseries_value words avg_func bucket ≡ latest_value words avg_func bucket
reduce-latest_value_example = reduce-latest_value words avg_func bucket

average_of_five : reduce_tseries_value words avg_func bucket ≡ some (5, 3)
unfolding reduce_tseries_value add_buckets add_bucket combine
average_of_five = refl
