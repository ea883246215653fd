-- ===== src/Struct/Bits.antt =====
-- The bit field's constructor.
use bpftrace.Prelude.{ℕ, ◌+◌, ◌-◌, ◌*◌, ◌^◌, ◌≤◌, ◌<◌, ◌≡◌, arith}
use bpftrace.Struct.{make_bitfield}

-- For a bit field that starts in its first byte and is at most 64 bits wide: the bytes that are
-- read hold all its bits, and one byte less would not; the mask keeps as many low bits as it is
-- wide.
make_bitfield-exact :
    (bit_offset bit_width : ℕ)
    → bit_width ≤ 64
    → 1 ≤ bit_width
    → (bit_offset + bit_width ≤ 8 * (make_bitfield bit_offset bit_width).read_bytes)
      × (8 * ((make_bitfield bit_offset bit_width).read_bytes - 1) < bit_offset + bit_width)
      × ((make_bitfield bit_offset bit_width).mask ≡ 2 ^ bit_width - 1)
unfolding make_bitfield
make_bitfield-exact bit_offset bit_width h k = ground arith
