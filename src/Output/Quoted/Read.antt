-- ===== src/Output/Quoted/Read.antt =====
-- What `JsonEmitter<std::string>` of src/output/json.cpp writes is read back.
use bpftrace.Output.Stream.{Stream, Base, put, digit}
use bpftrace.Output.Json.{emit_string, emit_chars}
use bpftrace.Output.Quoted.{
  IsPlain, plain, digit_value, cons_char, read_string, four_digits, char_text, append_assoc,
}
use bpftrace.Output.Quoted.Written.{AreAscii, has_coded, text_of, put-IsPlain, emit_chars-Printed}
use bpftrace.Prelude.{
  ℕ, ◌+◌, ◌*◌, ◌/◌, ◌%◌, ◌<◌, ◌≡◌, refl, ap, ◌∙◌, inl, inr, false, some, [], ◌∷◌, ◌++◌, arith, ltb,
  ◌==◌, if◌then◌else◌, ltb→lt, ==_iff, Bool-cases, Bytes,
}
use mathlib.Core.Option

digit_value-digit : (d : ℕ) → d < 16 → digit_value (digit false d) ≡ d
digit_value-digit d h = ground (arith, h)

-- What four digits stand for.
code_value : ℕ → ℕ
code_value c =
    (((0 * 16 + digit_value b'0') * 16 + digit_value b'0') * 16
        + digit_value (digit false (c / 16)))
      * 16
    + digit_value (digit false (c % 16))

code_value_lem : (c : ℕ) → c < 32 → code_value c ≡ c
unfolding code_value
code_value_lem c h =
    let d = digit_value-digit (c / 16) (omega (arith, h)) in
    let e = digit_value-digit (c % 16) (omega arith) in omega (arith, d, e)

read_string-code :
    (c : ℕ) (t : Bytes)
    → read_string plain ((b'\\' ∷ b'u' ∷ four_digits c) ++ t)
      ≡ Option.map (cons_char (code_value c)) (read_string plain t)
unfolding read_string code_value
read_string-code c t = refl

module _ (c : ℕ) (t : Bytes) (h : c < 128) where
  read_string-char_text :
      read_string plain (char_text c ++ t) ≡ Option.map (cons_char c) (read_string plain t)
  unfolding read_string char_text
  read_string-char_text = elim (Bool-cases (c == b'"')) [
    | inl e ↦ rw ((==_iff c b'"').0 e) refl
    | inr f1 ↦ elim (Bool-cases (c == b'\\')) [
      | inl e ↦ rw ((==_iff c b'\\').0 e) refl
      | inr f2 ↦ elim (Bool-cases (c == 10)) [
        | inl e ↦ rw ((==_iff c 10).0 e) refl
        | inr f3 ↦ elim (Bool-cases (c == 13)) [
          | inl e ↦ rw ((==_iff c 13).0 e) refl
          | inr f4 ↦ elim (Bool-cases (c == 9)) [
            | inl e ↦ rw ((==_iff c 9).0 e) refl
            | inr f5 ↦ elim (Bool-cases (ltb c 32)) [
              | inl l ↦
                  rw (f1, f2, f3, f4, f5, l)
                    (read_string-code c t
                      ∙ ap (λ v. Option.map (cons_char v) (read_string plain t))
                          (code_value_lem c (ltb→lt c 32 l)))
              | inr l ↦ rw (f1, f2, f3, f4, f5, l) (rw (f1, f2) refl)
            ]
          ]
        ]
      ]
    ]
  ]

read_string-text_of :
    (s rest : Bytes) → AreAscii s → read_string plain (text_of s ++ (b'"' ∷ rest)) ≡ some (s, rest)
unfolding read_string
read_string-text_of [] rest a = refl
read_string-text_of (c ∷ s) rest a =
    ap (read_string plain) (append_assoc (char_text c) (text_of s) (b'"' ∷ rest))
    ∙ read_string-char_text c (text_of s ++ (b'"' ∷ rest)) a.0
    ∙ ap (Option.map (cons_char c)) (read_string-text_of s rest a.1)

-- What `emit_string` promises for a string.
pub record Quotes (s : Bytes) (out out' : Stream) : Type 0 where
  pub text : Bytes
  pub written : out'.out ≡ out.out ++ (b'"' ∷ text)
  pub read_back : (rest : Bytes) → read_string plain (text ++ rest) ≡ some (s, rest)
  pub stays_plain : IsPlain out'
  pub base_after : out'.base ≡ (if has_coded s then Base.hex else out.base)

-- An ASCII string is printed in quotes, behind what the stream holds, as a text that is read back as
-- it, whatever follows. The stream is left in base sixteen exactly where a character was printed by
-- its code, and as it was otherwise.
pub emit_string-Quotes :
    (s : Bytes) (out : Stream) → IsPlain out → AreAscii s → Quotes s out (emit_string s out)
unfolding emit_string
emit_string-Quotes s out p a =
    let opened = put-IsPlain out (b'"' ∷ []) p in
    let printed = emit_chars-Printed s (put out (b'"' ∷ [])) opened.0 a in
    let closed = put-IsPlain (emit_chars s (put out (b'"' ∷ []))) (b'"' ∷ []) printed.0 in
    record {
      text = text_of s ++ (b'"' ∷ []);
      written =
          closed.1
          ∙ ap (λ o. o ++ (b'"' ∷ [])) (printed.1 ∙ ap (λ o. o ++ text_of s) opened.1)
          ∙ simp (append_assoc);
      read_back = λ rest.
          ap (read_string plain) (append_assoc (text_of s) (b'"' ∷ []) rest)
          ∙ read_string-text_of s rest a;
      stays_plain = closed.0;
      base_after = closed.2 ∙ printed.2 ∙ ap (λ b. if has_coded s then Base.hex else b) opened.2;
    }
