-- ===== src/Util/Tseries.antt =====
-- src/util/tseries.cpp: the reduction of one bucket of a time series over the CPUs.
mod Latest
mod Tests
use bpftrace.Prelude.{
  ℕ, zero, ◌-◌, ◌/◌, ◌<◌, min, max, ap, Bool, Option, none, some, List, [], ◌∷◌, arith, ◌==◌,
  if◌then◌else◌,
}

-- `TSeriesAggFunc`.
pub data AggFunc : Type 0 where
  no_func avg_func max_func min_func sum_func : AggFunc

-- `tseries_data<T>`.
pub record Data (T : Type 0) : Type 0 where
  pub val : T
  pub meta : T
  pub epoch : ℕ

-- The arithmetic of the template's parameter, `int64_t` or `uint64_t`.
pub record Arithmetic (T : Type 0) : Type 0 where
  pub plus : T → T → T
  pub less : T → T → Bool
  pub divide : T → T → T

module _ {T : Type 0} (num : Arithmetic T) where
  -- `epoch_to_value`.
  abbrev pub EpochMap : Type 0
  EpochMap = List (ℕ × Data T)

  abbrev pub find_epoch : ℕ → EpochMap → Option (Data T)
  find_epoch e [] = none
  find_epoch e ((k, d) ∷ m) = if k == e then some d else find_epoch e m

  abbrev pub put_epoch : ℕ → Data T → EpochMap → EpochMap
  put_epoch e d [] = (e, d) ∷ []
  put_epoch e d ((k, c) ∷ m) = if k == e then (k, d) ∷ m else (k, c) ∷ put_epoch e d m

  abbrev least_of : T → T → T
  least_of a b = if num.less b a then b else a

  abbrev greatest_of : T → T → T
  greatest_of a b = if num.less a b then b else a

  abbrev with_val : T → Data T → Data T
  with_val x d = record { val = x; meta = d.meta; epoch = d.epoch }

  -- The `switch` on the function: one more value of the epoch.
  unfoldable pub combine : AggFunc → Data T → Data T → Data T
  combine no_func current v =
      if num.less current.meta v.meta
      then record { val = v.val; meta = v.meta; epoch = current.epoch }
      else current
  combine avg_func current v = record {
    val = num.plus current.val v.val;
    meta = num.plus current.meta v.meta;
    epoch = current.epoch;
  }
  combine max_func current v = with_val (greatest_of current.val v.val) current
  combine min_func current v = with_val (least_of current.val v.val) current
  combine sum_func current v = with_val (num.plus current.val v.val) current

  abbrev pub combined : AggFunc → Data T → Option (Data T) → Data T
  combined agg v none = v
  combined agg v (some current) = combine agg current v

  -- The variables of the loop.
  pub record Buckets : Type 0 where
    pub epoch_to_value : EpochMap
    pub latest_epoch : ℕ

  -- One turn of the loop. A bucket of epoch 0 has never been used.
  unfoldable pub add_bucket : AggFunc → Data T → Buckets → Buckets
  add_bucket agg v s = if v.epoch == 0 then s else record {
    epoch_to_value =
        put_epoch v.epoch (combined agg v (find_epoch v.epoch s.epoch_to_value)) s.epoch_to_value;
    latest_epoch = max v.epoch s.latest_epoch;
  }

  unfoldable pub add_buckets : AggFunc → List (Data T) → Buckets → Buckets
  add_buckets agg [] s = s
  add_buckets agg (v ∷ vs) s = add_buckets agg vs (add_bucket agg v s)

  abbrev pub average : AggFunc → Data T → T
  average avg_func d = num.divide d.val d.meta
  average _ d = d.val

  abbrev pub result_of : AggFunc → Option (Data T) → Option (ℕ × T)
  result_of agg none = none
  result_of agg (some d) = some (d.epoch, average agg d)

  -- `reduce_tseries_value`. `none` is the pair of zeros of a bucket that no CPU has used.
  unfoldable pub reduce_tseries_value : AggFunc → List (Data T) → Option (ℕ × T)
  reduce_tseries_value agg vs =
      let s = add_buckets agg vs (record { epoch_to_value = []; latest_epoch = 0 }) in
      if s.latest_epoch == 0
      then none
      else result_of agg (find_epoch s.latest_epoch s.epoch_to_value)
