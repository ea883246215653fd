-- ===== src/Ast/IntegerTypes.antt =====
-- src/ast/integer_types.cpp: the types of integer literals.
mod Smallest
mod Tests
use bpftrace.Prelude.{
  ℕ, suc, ◌-◌, ◌/◌, max, Bool, true, false, Option, none, some, [], leb, if◌then◌else◌,
}
use bpftrace.Prelude.Int.{
  ℤ, pos, negsuc, pos_part, neg_part, sub_ℕ, ◌+ℤ◌, ◌-ℤ◌, ◌*ℤ◌, ◌≤ℤ◌, ltb_ℤ, +ℤ_parts, -ℤ_parts,
  eq_of_parts, int_laws,
}
use bpftrace.Types.{SizedType, integer}

-- src/types.cpp: `CreateInteger`.
abbrev pub create_integer : ℕ → Bool → SizedType
create_integer bits is_signed = integer bits is_signed []

unfoldable pub get_integer_type : ℕ → SizedType
get_integer_type n =
    if leb n 0xff
    then create_integer 8 false
    else if leb n 0xffff
    then create_integer 16 false
    else if leb n 0xffff_ffff
    then create_integer 32 false
    else create_integer 64 false

-- `get_signed_integer_type` of an unsigned integer.
unfoldable pub signed_type_of_unsigned : ℕ → Option SizedType
signed_type_of_unsigned n =
    if leb n 0x7f
    then some (create_integer 8 true)
    else if leb n 0x7fff
    then some (create_integer 16 true)
    else if leb n 0x7fff_ffff
    then some (create_integer 32 true)
    else if leb n 0x7fff_ffff_ffff_ffff
    then some (create_integer 64 true)
    else none

abbrev pub within : ℕ → ℤ → Bool
within bound (pos n) = leb n bound
within bound (negsuc n) = leb n bound

-- `get_signed_integer_type` of a signed integer. The range of a type reaches from `negsuc` of its
-- maximum to its maximum.
unfoldable pub get_signed_integer_type : ℤ → SizedType
get_signed_integer_type n =
    if within 0x7f n
    then create_integer 8 true
    else if within 0x7fff n
    then create_integer 16 true
    else if within 0x7fff_ffff n
    then create_integer 32 true
    else create_integer 64 true
