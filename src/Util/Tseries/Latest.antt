-- ===== src/Util/Tseries/Latest.antt =====
-- The reduction against its description: only the latest epoch counts.
use bpftrace.Prelude.{
  ℕ, ◌≤◌, max, ◌≡◌, refl, ap, Option, none, some, List, [], ◌∷◌, arith, ◌==◌, if◌then◌else◌, ◌∙◌,
  inl, inr, true, false, ==_iff, Bool-cases,
}
use bpftrace.Util.Tseries.{
  Arithmetic, Data, AggFunc, add_buckets, combined, result_of, EpochMap, add_bucket, find_epoch,
  Buckets, put_epoch, reduce_tseries_value,
}

unused_other : (k e : ℕ) → (k == 0) ≡ true → 1 ≤ e → (k == e) ≡ false
unused_other k e u h = ground arith

same_unless_zero :
    {A : Type 0} {x y : Option A} (n : ℕ)
    → (1 ≤ n → x ≡ y)
    → (if n == 0 then none else x) ≡ (if n == 0 then none else y)
same_unless_zero n h = elim (Bool-cases (n == 0)) [
  | inl e ↦ rw e refl
  | inr e ↦ rw e (h (ground arith))
]

module _ {T : Type 0} (num : Arithmetic T) where
  -- The values of one epoch, in order.
  abbrev pub of_epoch : ℕ → List (Data T) → List (Data T)
  of_epoch e [] = []
  of_epoch e (v ∷ vs) = if v.epoch == e then v ∷ of_epoch e vs else of_epoch e vs

  abbrev pub latest : List (Data T) → ℕ
  latest [] = 0
  latest (v ∷ vs) = max v.epoch (latest vs)

  -- All values combined, from the first on.
  abbrev pub fold_from : AggFunc → Option (Data T) → List (Data T) → Option (Data T)
  fold_from agg o [] = o
  fold_from agg o (v ∷ vs) = fold_from agg (some (combined num agg v o)) vs

  -- What the reduction promises.
  abbrev pub latest_value : AggFunc → List (Data T) → Option (ℕ × T)
  latest_value agg vs =
      if latest vs == 0
      then none
      else result_of num agg (fold_from agg none (of_epoch (latest vs) vs))

  find-put :
      (e k : ℕ) (d : Data T) (m : EpochMap num)
      → find_epoch num e (put_epoch num k d m) ≡ (if k == e then some d else find_epoch num e m)
  find-put e k d [] = refl
  find-put e k d ((j, c) ∷ m) = ground (arith, find-put e k d m)

  put-combined :
      (agg : AggFunc) (e k : ℕ) (v : Data T) (m : EpochMap num)
      → find_epoch num e (put_epoch num k (combined num agg v (find_epoch num k m)) m)
        ≡ (if k == e then some (combined num agg v (find_epoch num e m)) else find_epoch num e m)
  put-combined agg e k v m = elim (Bool-cases (k == e)) [
    | inl same ↦
        find-put e k _ m
        ∙ rw same (ap (λ j. some (combined num agg v (find_epoch num j m))) ((==_iff k e).0 same))
    | inr other ↦ find-put e k _ m ∙ rw other refl
  ]

  bucket-find :
      (agg : AggFunc) (e : ℕ) (v : Data T) (s : Buckets num)
      → 1 ≤ e
      → find_epoch num e (add_bucket num agg v s).epoch_to_value ≡ (
          if v.epoch == e
          then some (combined num agg v (find_epoch num e s.epoch_to_value))
          else find_epoch num e s.epoch_to_value)
  unfolding add_bucket
  bucket-find agg e v s h = elim (Bool-cases (v.epoch == 0)) [
    | inl unused ↦ rw (unused, unused_other v.epoch e unused h) refl
    | inr used ↦ rw used (put-combined agg e v.epoch v s.epoch_to_value)
  ]

  fold-step :
      (agg : AggFunc) (e : ℕ) (v : Data T) (o : Option (Data T)) (vs : List (Data T))
      → fold_from agg (if v.epoch == e then some (combined num agg v o) else o) (of_epoch e vs)
        ≡ fold_from agg o (of_epoch e (v ∷ vs))
  fold-step agg e v o vs = elim (Bool-cases (v.epoch == e)) [
    | inl same ↦ rw same refl
    | inr other ↦ rw other refl
  ]

  add_buckets-find :
      (agg : AggFunc) (e : ℕ) (vs : List (Data T)) (s : Buckets num)
      → 1 ≤ e
      → find_epoch num e (add_buckets num agg vs s).epoch_to_value
        ≡ fold_from agg (find_epoch num e s.epoch_to_value) (of_epoch e vs)
  unfolding add_buckets
  add_buckets-find agg e [] s h = refl
  add_buckets-find agg e (v ∷ vs) s h =
      add_buckets-find agg e vs (add_bucket num agg v s) h
      ∙ ap (λ o. fold_from agg o (of_epoch e vs)) (bucket-find agg e v s h)
      ∙ fold-step agg e v (find_epoch num e s.epoch_to_value) vs

  bucket-latest :
      (agg : AggFunc) (v : Data T) (s : Buckets num)
      → (add_bucket num agg v s).latest_epoch ≡ max v.epoch s.latest_epoch
  unfolding add_bucket
  bucket-latest agg v s = ground arith

  add_buckets-latest :
      (agg : AggFunc) (vs : List (Data T)) (s : Buckets num)
      → (add_buckets num agg vs s).latest_epoch ≡ max (latest vs) s.latest_epoch
  unfolding add_buckets
  add_buckets-latest agg [] s = omega arith
  add_buckets-latest agg (v ∷ vs) s =
      add_buckets-latest agg vs (add_bucket num agg v s) ∙ omega (arith, bucket-latest agg v s)

  -- The reduction gives the latest epoch that any CPU has used, with the values of that epoch alone
  -- combined in the order of the CPUs, whatever else the buckets hold and whatever the arithmetic
  -- is; where no CPU has used the bucket it gives nothing.
  pub reduce-latest_value :
      (agg : AggFunc) (vs : List (Data T)) → reduce_tseries_value num agg vs ≡ latest_value agg vs
  unfolding reduce_tseries_value
  reduce-latest_value agg vs =
      let start : Buckets num = record { epoch_to_value = []; latest_epoch = 0 } in
      let last : (add_buckets num agg vs start).latest_epoch ≡ latest vs =
        add_buckets-latest agg vs start ∙ omega arith in
      ap
        (λ l.
          if l == 0
          then none
          else result_of num agg (find_epoch num l (add_buckets num agg vs start).epoch_to_value))
        last
      ∙ same_unless_zero (latest vs)
          (λ h. ap (result_of num agg) (add_buckets-find agg (latest vs) vs start h))
