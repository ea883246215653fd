-- ===== src/Ast/IntegerTypes/Tests.antt =====
-- The types of some literals, and the theorem there.
use bpftrace.Prelude.{◌≡◌, refl, true, false, [], arith}
use bpftrace.Ast.IntegerTypes.Smallest.{Smallest, get_integer_type-Smallest}
use bpftrace.Ast.IntegerTypes.{get_signed_integer_type, pos, negsuc, get_integer_type, integer}

get_integer_type-Smallest_example : Smallest false (pos 300) (get_integer_type 300)
get_integer_type-Smallest_example = get_integer_type-Smallest 300 (omega arith)

least_byte : get_signed_integer_type (negsuc 127) ≡ integer 8 true []
unfolding get_signed_integer_type
least_byte = refl
