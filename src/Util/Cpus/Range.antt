-- ===== src/Util/Cpus/Range.antt =====
-- The CPUs of a range, as the kernel writes it, and the greatest CPU that maps are bounded by.
use bpftrace.Util.Cpus.{
  stoi, int_of, split_range, int_range, range_of, read_part, read_cpu_range, get_max_cpu_id,
  read_parts, round_up_to_next_power_of_two,
}
use bpftrace.Util.Decimal.{to_string}
use bpftrace.Util.IntParser.{c_str}
use bpftrace.Util.IntParser.Digits.{
  Digits, decimal, IsDigit, scan_digits-decimal, c_str-append, Stops,
}
use bpftrace.Util.Strtoull.{scan_digits, skip_spaces, split_sign, digit_below}
use bpftrace.Util.Strings.{split_loop, split_string}
use bpftrace.Prelude.{
  ℕ, ◌+◌, ◌-◌, ◌^◌, ◌<◌, ◌≡◌, refl, ap, false, some, [], ◌∷◌, ◌++◌, arith, ◌==◌, Bytes, zero, suc,
  sym, ◌∙◌, true, List, lt→ltb, length, text_eq, ◌*◌, ◌≤◌,
}
use bpftrace.Prelude.Int.{ℤ, pos, ◌+ℤ◌, pos_part, ◌-ℤ◌}
use mathlib.Core.Path.{subst}
use mathlib.Core.List.{append-nil, append_assoc}
use bpftrace.Util.Decimal.Read.{Shown, digits-Shown}
use bpftrace.Util.PowerOfTwo.Next.{round_up_to_next_power_of_two_lem}
use bpftrace.Util.Strings.Split.{Free}

scan_digits-first :
    (c : ℕ) (s : Bytes)
    → IsDigit c
    → scan_digits 10 0 false (c ∷ s) ≡ scan_digits 10 (c - 48) true s
unfolding scan_digits
scan_digits-first c s d = ground (arith, d)

-- `stoi` reads the digits of a number, and leaves out what stands behind them.
stoi-Digits :
    (c : ℕ) (s rest : Bytes) {v : ℕ}
    → IsDigit c
    → Digits s
    → Stops rest
    → c_str rest ≡ rest
    → decimal (c - 48) s ≡ v
    → v < 2 ^ 31
    → stoi (c ∷ (s ++ rest)) ≡ some (pos v)
unfolding stoi int_of skip_spaces split_sign
stoi-Digits c s rest d ds stops clean e h =
    let text = c_str-append (c ∷ s) rest (d, ds) ∙ ap (λ t. (c ∷ s) ++ t) clean in
    let no_space : skip_spaces (c ∷ (s ++ rest)) ≡ c ∷ (s ++ rest) = ground (arith, d) in
    let no_sign : split_sign (c ∷ (s ++ rest)) ≡ (false, c ∷ (s ++ rest)) = ground (arith, d) in
    let scanned : scan_digits 10 0 false (c ∷ (s ++ rest)) ≡ (decimal (c - 48) s, rest, true) =
      scan_digits-first c (s ++ rest) d ∙ scan_digits-decimal s rest (c - 48) ds stops in
    rw text (rw no_space (rw no_sign (rw scanned (rw e (rw (lt→ltb _ _ h) refl)))))

-- A text with no comma is one part.
split_loop-Free :
    (value s : Bytes)
    → Free b',' s
    → text_eq (value ++ s) [] ≡ false
    → split_loop b',' false value s ≡ (value ++ s) ∷ []
unfolding split_loop
split_loop-Free value [] d h =
    let e : text_eq value [] ≡ false = subst (λ t. text_eq t [] ≡ false) (append-nil value) h in
    rw (e, append-nil) refl
split_loop-Free value (c ∷ s) d h =
    let comma : (c == b',') ≡ false = ground (arith, d.0) in
    let longer = append_assoc value (c ∷ []) s in
    rw (comma, split_loop)
      (split_loop-Free (value ++ c ∷ []) s d.1 (subst (λ t. text_eq t [] ≡ false) (sym longer) h)
        ∙ ap (λ t. t ∷ []) longer)

Digits-Free : (s rest : Bytes) → Digits s → Free b',' rest → Free b',' (s ++ rest)
Digits-Free [] rest d f = f
Digits-Free (c ∷ s) rest ((l, h), d) f = (omega (arith, l, h), Digits-Free s rest d f)

-- The text that the kernel shows for the CPUs from 0 on: a range and a line feed.
abbrev pub possible_cpus : ℕ → Bytes
possible_cpus last = b'0' ∷ b'-' ∷ (to_string last ++ 10 ∷ [])

abbrev pub all_cpus : ℕ → List ℤ
all_cpus last = int_range (suc last) (pos 0)

length-int_range : (count : ℕ) (start : ℤ) → length (int_range count start) ≡ count
unfolding int_range
length-int_range zero start = refl
length-int_range (suc count) start = ap suc (length-int_range count (start +ℤ pos 1))

counted :
    (text : Bytes) (cpus : List ℤ) {n power : ℕ}
    → read_cpu_range text ≡ some cpus
    → length cpus ≡ suc n
    → round_up_to_next_power_of_two (suc n) ≡ some power
    → get_max_cpu_id text ≡ some (power - 1)
unfolding get_max_cpu_id
counted text [] r c p = absurd (omega (arith, c))
counted text (cpu ∷ cpus) r c p = rw (r, get_max_cpu_id) (rw c (rw p refl))

module _ (last : ℕ) (positive : 0 < last) (fits : last < 2 ^ 31) where
  shown : Shown last [] (to_string last)
  unfolding to_string
  shown = digits-Shown 20 last [] positive (omega (arith, fits))

  last_text : to_string last ≡ shown.first ∷ shown.rest
  last_text = shown.text_of ∙ ap (λ u. shown.first ∷ u) (append-nil shown.rest)

  first-IsDigit : IsDigit shown.first
  first-IsDigit = let l = shown.low in let h = shown.high in (omega (arith, l), h)

  last_line : to_string last ++ 10 ∷ [] ≡ shown.first ∷ (shown.rest ++ 10 ∷ [])
  last_line = ap (λ t. t ++ 10 ∷ []) last_text

  stoi-last : stoi (to_string last ++ 10 ∷ []) ≡ some (pos last)
  unfolding c_str digit_below
  stoi-last =
      ap stoi last_line
      ∙ stoi-Digits shown.first shown.rest (10 ∷ []) first-IsDigit shown.all_digits refl refl
          shown.number fits

  stoi-zero : stoi (b'0' ∷ []) ≡ some (pos 0)
  unfolding c_str
  stoi-zero = stoi-Digits b'0' [] [] (omega arith, omega arith) tt tt refl refl (omega arith)

  range_of-last : range_of (pos 0) (pos last) ≡ all_cpus last
  unfolding ◌+ℤ◌ ◌-ℤ◌
  range_of-last =
      let n : pos_part (pos last +ℤ pos 1 -ℤ pos 0) ≡ suc last = ground arith in
      ap (λ k. int_range k (pos 0)) n

  one_part : split_string (possible_cpus last) b',' false ≡ possible_cpus last ∷ []
  unfolding split_string split_loop
  one_part =
      subst (λ t. split_loop b',' false (b'0' ∷ b'-' ∷ []) t ≡ (b'0' ∷ b'-' ∷ t) ∷ [])
        (sym last_line)
        (split_loop-Free (b'0' ∷ b'-' ∷ []) (shown.first ∷ (shown.rest ++ 10 ∷ []))
          (Digits-Free (shown.first ∷ shown.rest) (10 ∷ []) (first-IsDigit, shown.all_digits)
            (omega arith, tt))
          refl)

  read_part-possible : read_part (possible_cpus last) ≡ some (all_cpus last)
  unfolding read_part split_range
  read_part-possible = rw (stoi-zero, read_part) (rw stoi-last (ap some range_of-last))

  read_cpu_range-possible : read_cpu_range (possible_cpus last) ≡ some (all_cpus last)
  unfolding read_cpu_range read_parts
  read_cpu_range-possible =
      rw (one_part, read_cpu_range) (rw (read_part-possible, read_parts) (ap some (append-nil _)))

  -- Where the kernel shows the CPUs from 0 to some positive number below 2 ^ 31 - 1, in a range that a
  -- line feed ends, these are read,
  -- and `get_max_cpu_id` is one less than a power of two, not below that number and below the double
  -- of the count.
  pub get_max_cpu_id-possible :
      last < 2 ^ 31 - 1
      → (read_cpu_range (possible_cpus last) ≡ some (all_cpus last))
        × ((e : ℕ) × (get_max_cpu_id (possible_cpus last) ≡ some (2 ^ e - 1))
            × (last ≤ 2 ^ e - 1)
            × (2 ^ e < 2 * (last + 1)))
  unfolding get_max_cpu_id
  get_max_cpu_id-possible h =
      let (e, rounded, above, least) =
        round_up_to_next_power_of_two_lem (suc last) (omega arith) (omega (arith, h)) in
      let count = length-int_range (suc last) (pos 0) in
      (
        read_cpu_range-possible,
        (
          e,
          counted (possible_cpus last) (all_cpus last) read_cpu_range-possible count rounded,
          omega (arith, above),
          omega (arith, least),
        ),
      )
