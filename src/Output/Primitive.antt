-- ===== src/Output/Primitive.antt =====
-- `Primitive` of src/output/output.h.
use bpftrace.Prelude.{ℕ, Bool, Bytes}
use bpftrace.Prelude.Int.{ℤ}

-- A double is given by its bits, a time stamp and a duration by their nanoseconds.
mutual
  pub data Primitive : Type 0 where
    null : Primitive
    boolean : Bool → Primitive
    int64 : ℤ → Primitive
    uint64 : ℕ → Primitive
    double : ℕ → Primitive
    string : Bytes → Primitive
    array : Primitives → Primitive
    buffer : Bytes → Primitive
    tuple : Primitives → Primitive
    record_t : Fields → Primitive
    symbolic : Bytes → ℕ → Primitive
    timestamp : ℕ → Primitive
    duration : ℕ → Primitive

  -- The values of an array or a tuple.
  pub data Primitives : Type 0 where
    no_value : Primitives
    value : Primitive → Primitives → Primitives

  -- The fields of a record, with their names.
  pub data Fields : Type 0 where
    no_field : Fields
    field : Bytes → Primitive → Fields → Fields
