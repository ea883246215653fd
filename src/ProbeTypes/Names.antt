-- ===== src/ProbeTypes/Names.antt =====
-- What the two ways from a written name to a kind of probe have in common.
use bpftrace.Prelude.{
  ◌≡◌, inl, inr, Bool, some, List, [], ◌∷◌, if◌then◌else◌, Bytes, refl, ap, ◌≢◌, true, false,
  Option, none, Option-cases, ℕ, sym, ap₂, ◌∙◌, arith,
}
use bpftrace.ProbeTypes.{
  probe_list, ProbeItem, find_item, probetype, ProbeType, type_of, expand_probe_name, invalid,
}
use bpftrace.Util.Strings.{lower_byte, to_lower}

-- A property of every item of a list.
abbrev Every : (ProbeItem → Type 0) → List ProbeItem → Type 0
Every P [] = Unit
Every P (p ∷ l) = P p × Every P l

chosen-P :
    {A : Type 0} (P : A → Type 0) (b : Bool) {q p : A} {rest : Option A}
    → (if b then some q else rest) ≡ some p
    → P q
    → (rest ≡ some p → P p)
    → P p
chosen-P P true {q} {p} e h r = let t : p ≡ q = cc in rw t h
chosen-P P false e h r = r e

find_item-Every :
    (P : ProbeItem → Type 0) (s : Bytes) (l : List ProbeItem) {p : ProbeItem}
    → Every P l
    → find_item s l ≡ some p
    → P p
unfolding find_item
find_item-Every P s [] h e = cc
find_item-Every P s (q ∷ l) h e = chosen-P P _ e h.0 (find_item-Every P s l h.1)

-- A full name is in lower case, and stands for its own item.
abbrev IsFound : ProbeItem → Type 0
IsFound p = (to_lower p.name ≡ p.name) × (find_item p.name probe_list ≡ some p)

items-IsFound : Every IsFound probe_list
unfolding probe_list find_item to_lower lower_byte
items-IsFound = (
  (refl, refl),
  (
    (refl, refl),
    (
      (refl, refl),
      (
        (refl, refl),
        (
          (refl, refl),
          (
            (refl, refl),
            (
              (refl, refl),
              (
                (refl, refl),
                (
                  (refl, refl),
                  (
                    (refl, refl),
                    (
                      (refl, refl),
                      (
                        (refl, refl),
                        (
                          (refl, refl),
                          (
                            (refl, refl),
                            (
                              (refl, refl),
                              (
                                (refl, refl),
                                (
                                  (refl, refl),
                                  (
                                    (refl, refl),
                                    ((refl, refl), ((refl, refl), ((refl, refl), tt))),
                                  ),
                                ),
                              ),
                            ),
                          ),
                        ),
                      ),
                    ),
                  ),
                ),
              ),
            ),
          ),
        ),
      ),
    ),
  ),
)

-- The kind that an item found for a name has.
found_type :
    (s : Bytes) {p : ProbeItem} → find_item s probe_list ≡ some p → probetype p.name ≡ p.item_type
unfolding probetype
found_type s e =
    let (low, found) = find_item-Every IsFound s probe_list items-IsFound e in
    rw low (ap type_of found)

lower_byte-lower_byte : (c : ℕ) → lower_byte (lower_byte c) ≡ lower_byte c
unfolding lower_byte
lower_byte-lower_byte c = ground arith

to_lower-to_lower : (s : Bytes) → to_lower (to_lower s) ≡ to_lower s
unfolding to_lower lower_byte
to_lower-to_lower [] = refl
to_lower-to_lower (c ∷ s) = ap₂ (λ b t. b ∷ t) (lower_byte-lower_byte c) (to_lower-to_lower s)

abbrev pub type_or : ProbeType → Option ProbeItem → ProbeType
type_or t none = t
type_or t (some p) = p.item_type

-- The kind of an expanded name is that of the item which the name as it is written names, and where
-- it names none, that of the name in lower case.
pub probetype-expand_probe_name :
    (s : Bytes) → probetype (expand_probe_name s) ≡ type_or (probetype s) (find_item s probe_list)
unfolding probetype expand_probe_name
probetype-expand_probe_name s = elim (Option-cases (find_item s probe_list)) [
  | inl n ↦ rw n (ap (λ t. type_of (find_item t probe_list)) (to_lower-to_lower s))
  | inr (p, e) ↦ rw e (found_type s e)
]

-- A name in lower case that stands for some kind of probe is expanded to the full name of that kind
-- of probe: one which expanding leaves as it is.
pub expand_probe_name-known :
    (s : Bytes)
    → to_lower s ≡ s
    → probetype s ≢ invalid
    → (probetype (expand_probe_name s) ≡ probetype s)
      × (expand_probe_name (expand_probe_name s) ≡ expand_probe_name s)
unfolding probetype expand_probe_name
expand_probe_name-known s h n = elim (Option-cases (find_item s probe_list)) [
  | inl e ↦ absurd (n (rw h (rw e refl)))
  | inr (p, e) ↦
      let full : expand_probe_name s ≡ p.name = rw e refl in
      let known = find_item-Every IsFound s probe_list items-IsFound e in
      let kind : probetype s ≡ p.item_type = rw h (rw e refl) in
      let again : expand_probe_name p.name ≡ p.name = rw known.1 refl in
      (
        ap probetype full ∙ (found_type s e ∙ sym kind),
        ap expand_probe_name full ∙ (again ∙ sym full),
      )
]
