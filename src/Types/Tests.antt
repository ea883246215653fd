-- ===== src/Types/Tests.antt =====
-- The theorems on sized types at concrete types.
use bpftrace.Prelude.{◌≡◌, refl, ◌↔◌, true, false, arith, codes}
use bpftrace.Prelude.Int.{ℤ}
use bpftrace.Types.{
  fits_into, SizedType, integer_fits, integer, tuple, field, sized, string, none_left, kind_index,
}
use bpftrace.Types.Ranges.{Holds, integer_fits_iff}
use bpftrace.Types.Order.{fits_into-preorder}

abbrev int32 : SizedType
int32 = integer 32 true (codes "int32")

abbrev int64 : SizedType
int64 = integer 64 true (codes "int64")

abbrev pair : SizedType → SizedType
pair t = tuple 128 8 (field t (field (sized string 64 false) none_left))

fits_into-preorder_example :
    (fits_into (pair int32) (pair int32) ≡ true)
    × (fits_into (pair int32) (pair int64) ≡ true
        → fits_into (pair int64) (pair int64) ≡ true
        → fits_into (pair int32) (pair int64) ≡ true)
fits_into-preorder_example = fits_into-preorder (pair int32) (pair int64) (pair int64)

integer_fits_iff_example :
    integer_fits 4 false 8 true ≡ true ↔ ((x : ℤ) → Holds 4 false x → Holds 8 true x)
integer_fits_iff_example = integer_fits_iff 4 8 false true (omega arith) (omega arith)

narrow-wide : fits_into (pair int32) (pair int64) ≡ true
unfolding fits_into kind_index
narrow-wide = refl

wide-narrow : fits_into (pair int64) (pair int32) ≡ false
unfolding fits_into kind_index
wide-narrow = refl
