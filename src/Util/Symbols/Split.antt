-- ===== src/Util/Symbols/Split.antt =====
-- The parts of a symbol's text are found again.
use bpftrace.Util.Symbols.{
  rfind, split_symbol_module, split_addrrange_symbol_module, symbol_has_module, module_at, between,
}
use mathlib.Core.List.{reverse-append, append_assoc}
use bpftrace.Prelude.{
  ℕ, suc, ◌+◌, ◌-◌, ◌≡◌, refl, sym, ap, ◌∙◌, true, none, some, [], ◌∷◌, ◌++◌, arith, length,
  length-append, take, drop, Bytes, codes, ap₂, ltb,
}

rfind-append : (p s v : Bytes) → rfind s v ≡ some 0 → rfind (p ++ s) v ≡ some (length p)
unfolding rfind
rfind-append [] s v h = h
rfind-append (c ∷ p) s v h = rw (rfind-append p s v h, rfind) refl

-- The place of a bracket behind which no other one follows.
rfind-bracket :
    (m : Bytes) → rfind m (codes " [") ≡ none → rfind (codes " [" ++ m) (codes " [") ≡ some 0
unfolding rfind
rfind-bracket m h = rw (h, rfind) refl

rfind-tab : (s : Bytes) → rfind s (9 ∷ []) ≡ none → rfind (9 ∷ s) (9 ∷ []) ≡ some 0
unfolding rfind
rfind-tab s h = rw (h, rfind) refl

take-length : (s t : Bytes) → take (length s) (s ++ t) ≡ s
take-length [] t = refl
take-length (c ∷ s) t = ap (λ u. c ∷ u) (take-length s t)

drop-length : (n : ℕ) (s t : Bytes) → drop (length s + n) (s ++ t) ≡ drop n t
drop-length n [] t = ap (λ k. drop k t) (omega arith)
drop-length n (c ∷ s) t =
    let e : suc (length s) + n ≡ suc (length s + n) = omega arith in
    ap (λ k. drop k (c ∷ (s ++ t))) e ∙ drop-length n s t

module_at-append : (p m : Bytes) → module_at (p ++ (codes " [" ++ (m ++ codes "]"))) (length p) ≡ m
module_at-append p m =
    let tail = codes " [" ++ (m ++ codes "]") in
    let count : length (p ++ tail) - length p - 3 ≡ length m =
      omega (arith, length-append p tail, length-append m (codes "]")) in
    ap (λ k. take k (drop (length p + 2) (p ++ tail))) count
    ∙ ap (take (length m)) (drop-length 2 p tail)
    ∙ take-length m (codes "]")

has_module-append : (s : Bytes) → symbol_has_module (s ++ codes "]") ≡ true
unfolding symbol_has_module
has_module-append s = rw (reverse-append s (codes "]")) refl

triple :
    {a b c a' b' c' : Bytes}
    → a ≡ a'
    → b ≡ b'
    → c ≡ c'
    → ◌≡◌ {A = Bytes × Bytes × Bytes} (a, b, c) (a', b', c')
triple p q r = λ i. (p i, q i, r i)

module _ (range name m : Bytes) (h : rfind (m ++ codes "]") (codes " [") ≡ none) where
  abbrev tail : Bytes
  tail = codes " [" ++ (m ++ codes "]")

  abbrev line : Bytes
  line = range ++ (9 ∷ (name ++ tail))

  split_symbol-parts : split_symbol_module (name ++ tail) ≡ (name, m)
  unfolding split_symbol_module
  split_symbol-parts =
      let ends : symbol_has_module (name ++ tail) ≡ true =
        ap symbol_has_module (sym (append_assoc name (codes " [" ++ m) (codes "]")))
        ∙ has_module-append (name ++ (codes " [" ++ m)) in
      let at = rfind-append name tail (codes " [") (rfind-bracket (m ++ codes "]") h) in
      rw (ends, split_symbol_module)
        (rw at (ap₂ (λ u v. (u, v)) (take-length name tail) (module_at-append name m)))

  line_assoc : (range ++ (9 ∷ name)) ++ tail ≡ line
  line_assoc = append_assoc range (9 ∷ name) tail

  bracket_place : rfind line (codes " [") ≡ some (length (range ++ (9 ∷ name)))
  bracket_place =
      ap (λ s. rfind s (codes " [")) (sym line_assoc)
      ∙ rfind-append (range ++ (9 ∷ name)) tail (codes " [") (rfind-bracket (m ++ codes "]") h)

  line-between : between line (some (length range)) (length (range ++ (9 ∷ name))) ≡ name
  line-between =
      let l = length-append range (9 ∷ name) in
      let after : ltb (length range) (length (range ++ (9 ∷ name))) ≡ true = ground (arith, l) in
      let count : length (range ++ (9 ∷ name)) - length range - 1 ≡ length name =
        omega (arith, l) in
      rw after (
        ap (λ k. take k (drop (length range + 1) line)) count
        ∙ ap (take (length name)) (drop-length 1 range (9 ∷ (name ++ tail)))
        ∙ take-length name tail)

  split_addrrange-parts :
      rfind (name ++ tail) (9 ∷ []) ≡ none → split_addrrange_symbol_module line ≡ (range, name, m)
  unfolding split_addrrange_symbol_module
  split_addrrange-parts k =
      let tab = rfind-append range (9 ∷ (name ++ tail)) (9 ∷ []) (rfind-tab (name ++ tail) k) in
      let named : module_at line (length (range ++ (9 ∷ name))) ≡ m =
        ap (λ s. module_at s (length (range ++ (9 ∷ name)))) (sym line_assoc)
        ∙ module_at-append (range ++ (9 ∷ name)) m in
      rw (bracket_place, split_addrrange_symbol_module)
        (rw tab (triple (take-length range (9 ∷ (name ++ tail))) line-between named))

  -- A symbol with its module in brackets is split into the two, and so is a line of the kernel's list
  -- of functions that take no probe, with its range of addresses: where no bracket opens in the
  -- module, and no tab stands behind the one after the range.
  pub split_symbol-split_addrrange :
      rfind (name ++ tail) (9 ∷ []) ≡ none
      → (split_symbol_module (name ++ tail) ≡ (name, m))
        × (split_addrrange_symbol_module line ≡ (range, name, m))
  split_symbol-split_addrrange k = (split_symbol-parts, split_addrrange-parts k)
