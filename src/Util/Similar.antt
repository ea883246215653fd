-- ===== src/Util/Similar.antt =====
-- src/util/similar.h: whether a word that the user wrote is close to another.
mod Suffix
mod Tests
use bpftrace.Prelude.{
  ℕ, ◌+◌, ◌-◌, ◌/◌, min, Bool, true, false, not, ◌&&◌, ◌||◌, [], ◌∷◌, ◌++◌, ltb, leb, if◌then◌else◌,
  length, take, Bytes, starts_with,
}

-- `target_str.find(v) != npos`.
unfoldable pub contains : Bytes → Bytes → Bool
contains [] v = starts_with [] v
contains (c ∷ target) v = starts_with (c ∷ target) v || contains target v

-- The loop. `window` is `needle.substr(i, j - i)`, `rest` the text from `j` on. A round that finds
-- the window takes its length for `common`; so does the last round, since it ends the loop.
unfoldable pub common_loop : Bytes → Bytes → Bytes → ℕ
common_loop target [] [] = 0
common_loop target [] (a ∷ window) = elim (contains target (a ∷ window)) [
  | true ↦ length (a ∷ window)
  | false ↦ common_loop target [] window
]
common_loop target (c ∷ rest) [] = common_loop target rest (c ∷ [])
common_loop target (c ∷ rest) (a ∷ window) = elim (contains target (a ∷ window)) [
  | true ↦ common_loop target rest ((a ∷ window) ++ c ∷ [])
  | false ↦ common_loop target (c ∷ rest) window
]

-- The loop from its start; an empty word does not enter it.
unfoldable pub common_length : Bytes → Bytes → ℕ
common_length [] target = 0
common_length (c ∷ user) target = common_loop target user (c ∷ [])

unfoldable pub is_similar : Bytes → Bytes → Bool
is_similar user target =
    let common = common_length user target in
    ltb 1 common && leb (min (length user) (length target) / 2) common
