-- ===== src/Output/Stream.antt =====
-- A `std::ostream` with the state of its manipulators, as src/output and src/format_string.cpp use it.
use bpftrace.Prelude.{
  ℕ, zero, suc, ◌+◌, ◌-◌, ◌/◌, ◌%◌, Bool, false, ◌&&◌, [], ◌∷◌, ◌++◌, ltb, if◌then◌else◌, length,
  replicate, Bytes,
}
use bpftrace.Prelude.Int.{ℤ, pos, negsuc}
use bpftrace.Util.Decimal.{to_string}

-- The base that integers are printed in.
pub data Base : Type 0 where
  oct dec hex : Base

-- How floating-point numbers are printed.
pub data Notation : Type 0 where
  general fixed scientific : Notation

-- What has been written, and what the manipulators have set. `width` holds for one output.
pub record Stream : Type 0 where
  pub out : Bytes
  pub width : ℕ
  pub fill : ℕ
  pub left : Bool
  pub base : Base
  pub uppercase : Bool
  pub showbase : Bool
  pub showpos : Bool
  pub precision : ℕ
  pub notation : Notation

-- What `std::stringstream ss` holds at first.
abbrev pub new_stream : Stream
new_stream = record {
  out = [];
  width = 0;
  fill = b' ';
  left = false;
  base = dec;
  uppercase = false;
  showbase = false;
  showpos = false;
  precision = 6;
  notation = general;
}

-- `ss << text`: padded to the width, which is then reset.
unfoldable pub put : Stream → Bytes → Stream
put ss text =
    let padding = replicate (ss.width - length text) ss.fill in
    record ss { out = ss.out ++ (if ss.left then text ++ padding else padding ++ text); width = 0 }

-- A digit in a base up to sixteen.
abbrev pub digit : Bool → ℕ → ℕ
digit upper d = if ltb d 10 then b'0' + d else if upper then d + 55 else d + 87

-- The digits of a number in a base, before some text; fuel 22 is enough for 64 bits in base eight.
unfoldable pub based : ℕ → ℕ → Bool → ℕ → Bytes → Bytes
based zero base upper v behind = behind
based (suc n) base upper v behind =
    let more = based n base upper (v / base) (digit upper (v % base) ∷ behind) in
    if ltb v base then digit upper v ∷ behind else more

-- The text of an unsigned integer in the stream's base.
unfoldable pub unsigned_text : Stream → ℕ → Bytes
unfolding based
unsigned_text ss v = elim (ss.base) [
  | oct ↦ (if ss.showbase && ltb 0 v then b'0' ∷ [] else []) ++ based 22 8 false v []
  | dec ↦ to_string v
  | hex ↦
      (if ss.showbase && ltb 0 v then b'0' ∷ (if ss.uppercase then b'X' else b'x') ∷ [] else [])
      ++ based 22 16 ss.uppercase v []
]

-- The text of a signed integer in base ten.
unfoldable pub signed_text : Stream → ℤ → Bytes
signed_text ss (pos n) = (if ss.showpos then b'+' ∷ [] else []) ++ to_string n
signed_text ss (negsuc n) = b'-' ∷ to_string (suc n)
