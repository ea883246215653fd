-- ===== src/Output/Quoted/Written.antt =====
-- What `JsonEmitter<std::string>` of src/output/json.cpp writes for ASCII text.
use bpftrace.Output.Stream.{Stream, Base, put, unsigned_text, based}
use bpftrace.Output.Json.{emit_chars, emit_char, put_char, put_code, char_code}
use bpftrace.Output.Quoted.{IsPlain, is_coded, four_digits, char_text, append_assoc, append-nil}
use bpftrace.Prelude.{
  ℕ, ◌-◌, ◌/◌, ◌%◌, ◌<◌, ◌≡◌, refl, sym, ap, ◌∙◌, inl, inr, Bool, true, false, ◌||◌, [], ◌∷◌, ◌++◌,
  arith, ltb, leb, ◌==◌, if◌then◌else◌, ltb→lt, Bool-cases, length, replicate, Bytes,
}

pub put-IsPlain :
    (out : Stream) (text : Bytes)
    → IsPlain out
    → IsPlain (put out text)
      × ((put out text).out ≡ out.out ++ text)
      × ((put out text).base ≡ out.base)
unfolding put
put-IsPlain out text p =
    let none_left : 0 - length text ≡ 0 = omega arith in
    (
      record { no_width = refl; right = p.right; lower_case = p.lower_case; no_base = p.no_base },
      rw (p.no_width, p.right) (rw none_left refl),
      refl,
    )

put-right :
    (ss : Stream) (text : Bytes)
    → ss.left ≡ false
    → (put ss text).out ≡ ss.out ++ (replicate (ss.width - length text) ss.fill ++ text)
unfolding put
put-right ss text l = rw l refl

abbrev filled : Bytes → Bytes
filled text = replicate (4 - length text) b'0' ++ text

filled-based : (c : ℕ) → c < 32 → filled (based 22 16 false c []) ≡ four_digits c
unfolding based
filled-based c h = elim (Bool-cases (ltb c 16)) [
  | inl t ↦
      let q : c / 16 ≡ 0 = ground (arith, t) in
      let r : c % 16 ≡ c = ground (arith, t) in rw t (rw (q, r) refl)
  | inr f ↦ let second : ltb (c / 16) 16 ≡ true = ground (arith, h) in rw f (rw second refl)
]

module _ (out : Stream) (c : ℕ) (p : IsPlain out) where
  abbrev set_up : Stream
  set_up = record (put out (b'\\' ∷ b'u' ∷ [])) { base = Base.hex; width = 4; fill = b'0' }

  code_digits : unsigned_text set_up c ≡ based 22 16 false c []
  unfolding unsigned_text put
  code_digits = rw (p.no_base, p.lower_case) refl

  set_up-right : set_up.left ≡ false
  unfolding put
  set_up-right = p.right

  put_code-small :
      c < 32
      → IsPlain (put_code out c)
        × ((put_code out c).out ≡ out.out ++ (b'\\' ∷ b'u' ∷ four_digits c))
        × ((put_code out c).base ≡ Base.hex)
  unfolding put_code put
  put_code-small h =
      let low : char_code c ≡ c = ground (arith, h) in
      let written = put-right set_up (unsigned_text set_up (char_code c)) set_up-right in
      let text : unsigned_text set_up (char_code c) ≡ based 22 16 false c [] = rw low code_digits in
      let opened = (put-IsPlain out (b'\\' ∷ b'u' ∷ []) p).1 in
      (
        record { no_width = refl; right = p.right; lower_case = p.lower_case; no_base = p.no_base },
        written
            ∙ ap (λ t. set_up.out ++ filled t) text
            ∙ ap (λ t. set_up.out ++ t) (filled-based c h)
            ∙ ap (λ o. o ++ four_digits c) opened
            ∙ append_assoc out.out (b'\\' ∷ b'u' ∷ []) (four_digits c),
        refl,
      )

-- What is printed for text, and what becomes of the stream.
abbrev pub Printed : Stream → Bytes → Base → Stream → Type 0
Printed out text base out' = IsPlain out' × (out'.out ≡ out.out ++ text) × (out'.base ≡ base)

emit_char-Printed :
    (out : Stream) (c : ℕ)
    → IsPlain out
    → c < 128
    → Printed out (char_text c) (if is_coded c then Base.hex else out.base) (emit_char out c)
unfolding emit_char char_text put_char
emit_char-Printed out c p h = elim (Bool-cases (c == b'"')) [
  | inl e ↦ let n : is_coded c ≡ false = ground (arith, e) in rw (e, n) (put-IsPlain out _ p)
  | inr f1 ↦ elim (Bool-cases (c == b'\\')) [
    | inl e ↦ let n : is_coded c ≡ false = ground (arith, e) in rw (f1, e, n) (put-IsPlain out _ p)
    | inr f2 ↦ elim (Bool-cases (c == 10)) [
      | inl e ↦ rw (f1, f2, e) (put-IsPlain out _ p)
      | inr f3 ↦ elim (Bool-cases (c == 13)) [
        | inl e ↦ rw (f1, f2, f3, e) (put-IsPlain out _ p)
        | inr f4 ↦ elim (Bool-cases (c == 9)) [
          | inl e ↦ rw (f1, f2, f3, f4, e) (put-IsPlain out _ p)
          | inr f5 ↦ elim (Bool-cases (ltb c 32)) [
            | inl t ↦
                let k : leb c 31 ≡ true = ground (arith, t) in
                rw (f1, f2, f3, f4, f5, t, k) (put_code-small out c p (ltb→lt c 32 t))
            | inr t ↦
                let k : leb c 31 ≡ false = ground (arith, t) in
                let g : leb 128 c ≡ false = ground (arith, h) in
                rw (f1, f2, f3, f4, f5, t, k, g) (put-IsPlain out _ p)
          ]
        ]
      ]
    ]
  ]
]

abbrev pub AreAscii : Bytes → Type 0
AreAscii [] = Unit {0}
AreAscii (c ∷ s) = (c < 128) × AreAscii s

-- A string has a character that is printed by its code.
abbrev pub has_coded : Bytes → Bool
has_coded [] = false
has_coded (c ∷ s) = is_coded c || has_coded s

abbrev pub text_of : Bytes → Bytes
text_of [] = []
text_of (c ∷ s) = char_text c ++ text_of s

base_then :
    (a b : Bool) (base : Base)
    → (if b then Base.hex else if a then Base.hex else base) ≡ (if a || b then Base.hex else base)
base_then true true base = refl
base_then true false base = refl
base_then false true base = refl
base_then false false base = refl

pub emit_chars-Printed :
    (s : Bytes) (out : Stream)
    → IsPlain out
    → AreAscii s
    → Printed out (text_of s) (if has_coded s then Base.hex else out.base) (emit_chars s out)
unfolding emit_chars
emit_chars-Printed [] out p a = (p, sym (append-nil out.out), refl)
emit_chars-Printed (c ∷ s) out p a =
    let first = emit_char-Printed out c p a.0 in
    let rest = emit_chars-Printed s (emit_char out c) first.0 a.1 in
    (
      rest.0,
      rest.1 ∙ ap (λ o. o ++ text_of s) first.1 ∙ append_assoc out.out (char_text c) (text_of s),
      rest.2
          ∙ ap (λ b. if has_coded s then Base.hex else b) first.2
          ∙ base_then (is_coded c) (has_coded s) out.base,
    )
