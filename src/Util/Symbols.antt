-- ===== src/Util/Symbols.antt =====
-- src/util/symbols.cpp: the parts of a symbol's text. What asks the symbols of a file is left out.
mod Split
mod Tests
use mathlib.Core.List.{reverse}
use bpftrace.Prelude.{
  ℕ, suc, ◌+◌, ◌-◌, ◌/◌, sym, ap, Bool, not, ◌||◌, Option, none, some, [], ◌∷◌, ltb, if◌then◌else◌,
  length, take, drop, Bytes, codes, starts_with,
}

-- The place of the last occurrence.
unfoldable pub rfind : Bytes → Bytes → Option ℕ
rfind [] v = if starts_with [] v then some 0 else none
rfind (c ∷ s) v = elim (rfind s v) [
  | some i ↦ some (suc i)
  | none ↦ if starts_with (c ∷ s) v then some 0 else none
]

unfoldable pub symbol_has_module : Bytes → Bool
symbol_has_module symbol = starts_with (reverse symbol) (codes "]")

-- `symbol.substr(idx + 2, length - idx - 3)`.
abbrev pub module_at : Bytes → ℕ → Bytes
module_at symbol idx = take (length symbol - idx - 3) (drop (idx + 2) symbol)

unfoldable pub split_symbol_module : Bytes → Bytes × Bytes
split_symbol_module symbol =
    if not (symbol_has_module symbol) then (symbol, []) else elim (rfind symbol (codes " [")) [
      | none ↦ (symbol, [])
      | some idx ↦ (take idx symbol, module_at symbol idx)
    ]

-- The text between the tab and the bracket. Where there is no tab, the place behind it wraps around
-- to 0; where the bracket stands before the tab, the count wraps around, and the text goes to the end.
abbrev pub between : Bytes → Option ℕ → ℕ → Bytes
between symbol none idx2 = take idx2 symbol
between symbol (some idx1) idx2 =
    if ltb idx1 idx2
    then take (idx2 - idx1 - 1) (drop (idx1 + 1) symbol)
    else drop (idx1 + 1) symbol

abbrev pub before_tab : Bytes → Option ℕ → Bytes
before_tab symbol none = symbol
before_tab symbol (some idx1) = take idx1 symbol

abbrev pub behind_tab : Bytes → Option ℕ → Bytes
behind_tab symbol none = symbol
behind_tab symbol (some idx1) = drop (idx1 + 1) symbol

unfoldable pub split_addrrange_symbol_module : Bytes → Bytes × Bytes × Bytes
split_addrrange_symbol_module symbol =
    let idx1 = rfind symbol (9 ∷ []) in
    elim (rfind symbol (codes " [")) [
      | none ↦ (before_tab symbol idx1, behind_tab symbol idx1, [])
      | some idx2 ↦ (before_tab symbol idx1, between symbol idx1 idx2, module_at symbol idx2)
    ]

-- `rfind(..., 0)` finds at the start only.
unfoldable pub symbol_has_cpp_mangled_signature : Bytes → Bool
symbol_has_cpp_mangled_signature sym_name =
    starts_with sym_name (codes "_Z") || starts_with sym_name (codes "____Z")
