-- ===== src/Output/Json.antt =====
-- src/output/json.cpp: what primitives and histograms are printed as in JSON.
use bpftrace.Output.Primitive.{Primitive, Primitives, Fields, no_value, value, no_field, field}
use bpftrace.Output.Stream.{Stream, Base, put, unsigned_text, new_stream, signed_text}
use bpftrace.Output.Text.{Runtime, emit}
use bpftrace.Prelude.{
  ℕ, zero, suc, ◌+◌, ◌-◌, ◌/◌, ◌%◌, ◌^◌, Bool, false, ◌||◌, [], ◌∷◌, ltb, leb, ◌==◌, if◌then◌else◌,
  Bytes, codes, true, ◌&&◌, length, take, drop, starts_with,
}
use bpftrace.Prelude.Int.{ℤ, pos, negsuc, pos_part, neg_part}
use mathlib.Core.List.{reverse}

-- The number of an ASCII control character or, since `char` is signed, of a byte from 128 on,
-- printed in hexadecimal.
abbrev pub char_code : ℕ → ℕ
char_code c = if ltb c 128 then c else 2 ^ 32 - 256 + c

-- `out << "\\u" << std::hex << std::setw(4) << std::setfill('0') << static_cast<int>(c)`. The base and
-- the fill stay as they are set here.
unfoldable pub put_code : Stream → ℕ → Stream
put_code out c =
    let set_up = record (put out (b'\\' ∷ b'u' ∷ [])) { base = Base.hex; width = 4; fill = b'0' } in
    put set_up (unsigned_text set_up (char_code c))

-- What is printed for a character that is not escaped by name.
unfoldable pub put_char : Stream → ℕ → Stream
put_char out c = if leb c 31 || leb 128 c then put_code out c else put out (c ∷ [])

-- One round of the loop over a string.
unfoldable pub emit_char : Stream → ℕ → Stream
emit_char out c =
    if c == b'"'
    then put out (b'\\' ∷ b'"' ∷ [])
    else if c == b'\\'
    then put out (b'\\' ∷ b'\\' ∷ [])
    else if c == 10
    then put out (b'\\' ∷ b'n' ∷ [])
    else if c == 13
    then put out (b'\\' ∷ b'r' ∷ [])
    else if c == 9
    then put out (b'\\' ∷ b't' ∷ [])
    else put_char out c

unfoldable pub emit_chars : Bytes → Stream → Stream
emit_chars [] out = out
emit_chars (c ∷ s) out = emit_chars s (emit_char out c)

-- `JsonEmitter<std::string>`.
unfoldable pub emit_string : Bytes → Stream → Stream
emit_string s out = put (emit_chars s (put out (b'"' ∷ []))) (b'"' ∷ [])

-- A number without its factors of two.
abbrev pub odd_part : ℕ → ℕ → ℕ
odd_part zero v = v
odd_part (suc n) v = let half = odd_part n (v / 2) in if v % 2 == 0 then half else v

-- The integer is a double: it is what it was after `static_cast<double>`.
unfoldable pub is_double : ℕ → Bool
is_double v = ltb (odd_part 64 v) (2 ^ 53)

-- `JsonEmitter<T>` of integers.
unfoldable pub emit_number : ℤ → Stream → Stream
unfolding put is_double emit_string
emit_number v out =
    let text = signed_text new_stream v in
    if is_double (pos_part v + neg_part v) then put out text else emit_string text out

-- A byte as a `char`.
abbrev pub signed_char : ℕ → ℤ
signed_char c = if ltb c 128 then pos c else negsuc (255 - c)

-- The elements of a buffer.
unfoldable pub emit_bytes : Bool → Bytes → Stream → Stream
unfolding put emit_number
emit_bytes first [] out = out
emit_bytes first (c ∷ s) out =
    emit_bytes false s (emit_number (signed_char c) (if first then out else put out (codes ",")))

-- A key that is no string: its text, without the parentheses round it and without spaces.
unfoldable pub strip_parens : Bytes → Bytes
strip_parens s =
    if leb 2 (length s) && (starts_with s (b'(' ∷ []) && starts_with (reverse s) (b')' ∷ []))
    then take (length s - 2) (drop 1 s)
    else s

unfoldable pub erase_spaces : Bytes → Bytes
erase_spaces [] = []
erase_spaces (c ∷ s) = if c == b' ' then erase_spaces s else c ∷ erase_spaces s

-- `JsonEmitter<Primitive>::emit`; `first` is the flag of the loops.
module _ (host : Runtime) where
  unfoldable pub key_text : Primitive → Bytes
  unfolding emit strip_parens erase_spaces
  key_text key = erase_spaces (strip_parens (emit host key new_stream).out)

  unfoldable mutual
    unfolding put emit_string emit_number emit_bytes emit

    pub emit_json : Primitive → Stream → Stream
    emit_json Primitive.null out = put out (codes "null")
    emit_json (Primitive.boolean v) out = put out (if v then codes "true" else codes "false")
    emit_json (Primitive.int64 v) out = emit_number v out
    emit_json (Primitive.uint64 v) out = emit_number (pos v) out
    emit_json (Primitive.double v) out = put out (host.number_text v)
    emit_json (Primitive.string v) out = emit_string v out
    emit_json (Primitive.array vs) out =
        put (emit_elements true vs (put out (codes "["))) (codes "]")
    emit_json (Primitive.buffer v) out = put (emit_bytes true v (put out (codes "["))) (codes "]")
    emit_json (Primitive.tuple vs) out =
        put (emit_elements true vs (put out (codes "["))) (codes "]")
    emit_json (Primitive.record_t fs) out =
        put (emit_members true fs (put out (codes "{"))) (codes "}")
    emit_json (Primitive.symbolic symbol numeric) out = emit_number (pos numeric) out
    emit_json (Primitive.timestamp v) out =
        emit_string (emit host (Primitive.timestamp v) new_stream).out out
    emit_json (Primitive.duration v) out =
        emit_string (emit host (Primitive.duration v) new_stream).out out

    pub emit_elements : Bool → Primitives → Stream → Stream
    emit_elements first no_value out = out
    emit_elements first (value v vs) out =
        emit_elements false vs (emit_json v (if first then out else put out (codes ",")))

    pub emit_members : Bool → Fields → Stream → Stream
    emit_members first no_field out = out
    emit_members first (field key v fs) out = emit_members false fs (
        emit_json v
          (put (emit_string key (if first then out else put out (codes ", "))) (codes ": ")))
