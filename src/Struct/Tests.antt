-- ===== src/Struct/Tests.antt =====
-- The theorems on structs at concrete inputs.
use bpftrace.Prelude.{ℕ, ◌+◌, ◌*◌, ◌%◌, ◌≤◌, ◌<◌, ◌≡◌, refl, true, some, [], ◌∷◌, map, arith, codes}
use bpftrace.Struct.Manager.{Structs}
use bpftrace.Struct.Fields.{set_fields}
use bpftrace.Types.{get_in_tuple_alignment, SizedType, integer, alignment_of_size}
use bpftrace.Struct.{create_record, Field, Struct, plain_field, empty_struct}
use bpftrace.Struct.Layout.{Laid, AllAligned, create_record-Laid}

abbrev int_type : ℕ → SizedType
int_type size = integer (8 * size) true (codes "int")

aligned : AllAligned (int_type 1 ∷ int_type 8 ∷ int_type 2 ∷ [])
unfolding get_in_tuple_alignment alignment_of_size
aligned = (omega arith, (omega arith, (omega arith, tt)))

no_alignment : get_in_tuple_alignment (int_type 0) ≡ 0
unfolding get_in_tuple_alignment alignment_of_size
no_alignment = refl

create_record-Laid_example :
    (r : Struct) × (finish : ℕ) × (create_record (int_type 1 ∷ int_type 8 ∷ int_type 2 ∷ []) []
      ≡ some r)
    × (map (λ f. f.type_) r.fields ≡ int_type 1 ∷ int_type 8 ∷ int_type 2 ∷ [])
    × Laid 0 r.fields finish
    × (finish ≤ r.size)
    × (r.size < finish + r.align)
    × (r.size % r.align ≡ 0)
create_record-Laid_example =
    create_record-Laid (int_type 1 ∷ int_type 8 ∷ int_type 2 ∷ []) [] aligned

abbrev comm_field : Field
comm_field = plain_field (codes "comm") (int_type 4) 8

abbrev task : Struct
task = set_fields (comm_field ∷ []) (empty_struct 16 true)

abbrev table : Structs
table = (codes "task", task) ∷ []
