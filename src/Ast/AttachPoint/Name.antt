-- ===== src/Ast/AttachPoint/Name.antt =====
-- src/ast/ast.cpp: `AttachPoint::name`, which prints an attach point.
mod Kprobe
mod Tests
use bpftrace.Prelude.{ℕ, suc, ◌+◌, ◌-◌, ◌/◌, [], ◌∷◌, ◌++◌, ◌==◌, if◌then◌else◌, set, Bytes}
use bpftrace.Prelude.Int.{
  ℤ, pos, negsuc, pos_part, neg_part, sub_ℕ, ◌+ℤ◌, ◌-ℤ◌, ◌*ℤ◌, ◌≤ℤ◌, ltb_ℤ, +ℤ_parts, -ℤ_parts,
  eq_of_parts, int_laws,
}
use bpftrace.Util.Decimal.{to_string}
use bpftrace.Ast.AttachPoint.{AttachPoint}

abbrev pub colon_text : Bytes → Bytes
colon_text [] = []
colon_text (c ∷ s) = b':' ∷ c ∷ s

abbrev pub colon_number : ℕ → Bytes
colon_number n = if n == 0 then [] else b':' ∷ to_string n

abbrev pub offset_text : ℕ → Bytes
offset_text n = if n == 0 then [] else b'+' ∷ to_string n

abbrev pub func_text : Bytes → ℕ → Bytes
func_text [] n = []
func_text (c ∷ s) n = b':' ∷ ((c ∷ s) ++ offset_text n)

abbrev pub colon_integer : ℤ → Bytes
colon_integer (pos n) = colon_number n
colon_integer (negsuc n) = b':' ∷ b'-' ∷ to_string (suc n)

unfoldable pub name : AttachPoint → Bytes
name a =
    a.provider
    ++ (colon_text a.target
        ++ (colon_text a.lang
            ++ (colon_text a.ns
                ++ (colon_number a.bpf_prog_id
                    ++ (func_text a.func a.func_offset
                        ++ (colon_number a.address
                            ++ (colon_integer a.freq
                                ++ (colon_number a.len ++ colon_text a.mode))))))))
