-- ===== src/Struct.antt =====
-- src/struct.h and src/struct.cpp: bit fields, the layout of records and tuples, the fields of a
-- struct, and the table of the structs. Sizes and offsets are numbers without a bound.
mod Bits
mod Layout
mod Fields
mod Manager
mod Tests
use bpftrace.Prelude.{
  ℕ, zero, ◌+◌, ◌-◌, ◌/◌, ◌%◌, ◌^◌, min, max, ap, Bool, true, false, Option, none, some, List, [],
  ◌∷◌, ◌++◌, map, ◌==◌, if◌then◌else◌, set, Bytes, not,
}
use bpftrace.Types.{get_in_tuple_alignment, SizedType, get_size}

pub record Bitfield : Type 0 where
  read_bytes : ℕ
  access_rshift : ℕ
  mask : ℕ

abbrev pub bitfield_bit_width_max : ℕ
bitfield_bit_width_max = 64

abbrev pub bit_mask : ℕ → ℕ
bit_mask bit_width = if bit_width == bitfield_bit_width_max then 2 ^ 64 - 1 else 2 ^ bit_width - 1

-- The constructor, on a little-endian machine.
unfoldable pub make_bitfield : ℕ → ℕ → Bitfield
make_bitfield bit_offset bit_width =
    let width = min bit_width bitfield_bit_width_max in
    record {
      read_bytes = (bit_offset + width + 7) / 8;
      access_rshift = bit_offset;
      mask = bit_mask width;
    }

pub record Field : Type 0 where
  name : Bytes
  type_ : SizedType
  offset : ℕ
  bits : Option Bitfield
  is_data_loc : Bool

pub record Struct : Type 0 where
  size : ℕ
  align : ℕ
  padded : Bool
  fields : List Field
  allow_override : Bool

abbrev pub empty_struct : ℕ → Bool → Struct
empty_struct n override = record {
  size = n;
  align = 1;
  padded = false;
  fields = [];
  allow_override = override;
}

-- The bytes that bring an offset to a multiple of an alignment.
unfoldable pub padding : ℕ → ℕ → ℕ
padding align offset = (align - offset % align) % align

-- The variables of the loop of `CreateRecord`: the offset, and the struct so far with its
-- alignment.
pub record LoopState : Type 0 where
  next_offset : ℕ
  laid_out : Struct

-- One turn of the loop: the alignment's part, then the whole.
unfoldable pub aligned_offset : SizedType → ℕ → ℕ
unfolding padding get_in_tuple_alignment
aligned_offset t offset = offset + padding (get_in_tuple_alignment t) offset

abbrev pub plain_field : Bytes → SizedType → ℕ → Field
plain_field field_name t at = record {
  name = field_name;
  type_ = t;
  offset = at;
  bits = none;
  is_data_loc = false;
}

abbrev pub with_field : Field → ℕ → Bool → Struct → Struct
with_field f field_align pads r = record {
  size = r.size;
  align = max field_align r.align;
  padded = if pads then true else r.padded;
  fields = r.fields ++ (f ∷ []);
  allow_override = r.allow_override;
}

unfoldable pub place : Bytes → SizedType → LoopState → LoopState
unfolding aligned_offset get_in_tuple_alignment
place field_name t s =
    let at = aligned_offset t s.next_offset in
    record {
      next_offset = at + get_size t;
      laid_out =
          with_field (plain_field field_name t at) (get_in_tuple_alignment t)
            (not (at == s.next_offset)) s.laid_out;
    }

-- The first name, or the empty one.
abbrev pub first_name : List Bytes → Bytes
first_name [] = []
first_name (n ∷ ns) = n

abbrev pub other_names : List Bytes → List Bytes
other_names [] = []
other_names (n ∷ ns) = ns

-- The loop. `offset % align` divides by zero where a type has the alignment 0: `none`.
unfoldable pub place_all : List SizedType → List Bytes → LoopState → Option LoopState
unfolding get_in_tuple_alignment place
place_all [] names s = some s
place_all (t ∷ ts) names s =
    let rest = place_all ts (other_names names) (place (first_name names) t s) in
    if get_in_tuple_alignment t == 0 then none else rest

-- The size of the record, after the loop.
unfoldable pub close : LoopState → Struct
unfolding padding
close s = record {
  size = s.next_offset + padding s.laid_out.align s.next_offset;
  align = s.laid_out.align;
  padded = s.laid_out.padded;
  fields = s.laid_out.fields;
  allow_override = s.laid_out.allow_override;
}

abbrev pub close_all : Option LoopState → Option Struct
close_all none = none
close_all (some s) = some (close s)

-- `CreateRecord`.
unfoldable pub create_record : List SizedType → List Bytes → Option Struct
unfolding place_all close
create_record ts names =
    close_all (place_all ts names (record { next_offset = 0; laid_out = empty_struct 0 true }))

-- `CreateTuple`.
unfoldable pub create_tuple : List SizedType → Option Struct
unfolding create_record
create_tuple ts = create_record ts []
