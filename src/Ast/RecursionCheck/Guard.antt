-- ===== src/Ast/RecursionCheck/Guard.antt =====
-- When the guard against recursion is asked for.
use bpftrace.ProbeTypes.{probetype}
use bpftrace.Ast.AttachPoint.{AttachPoint}
use bpftrace.Ast.RecursionCheck.{
  Checked, Flow, returned, goes_on, visit_matches, visit_attach_point, visit_probe, visit_program,
  is_recursive_func, is_fentry_or_fexit,
}
use bpftrace.Prelude.{
  ◌≡◌, refl, sym, ap, ◌∙◌, ◌⊎◌, inl, inr, true, List, [], ◌∷◌, ◌++◌, Bool-cases, Bytes,
}
use mathlib.Core.Bool.{false≢true}

-- What a visit does that looks for functions with a property: it returns with the flag set and one
-- more warning, of such a function, or it goes on with the state as it was, where there is none.
abbrev pub Guards : (Bytes → Type 0) → Checked → Flow → Type 0
Guards Found state flow =
    ((m : Bytes) × Found m
      × (flow
          ≡ returned (record { need_recursion_check = true; warnings = state.warnings ++ m ∷ [] })))
    ⊎ (((m : Bytes) → Found m → ⊥) × (flow ≡ goes_on state))

abbrev pub AmongMatches : List Bytes → Bytes → Type 0
AmongMatches [] m = ⊥
AmongMatches (match ∷ matches) m =
    ((match ≡ m) × (is_recursive_func m ≡ true)) ⊎ AmongMatches matches m

visit_matches-Guards :
    (matches : List Bytes) (state : Checked)
    → Guards (AmongMatches matches) state (visit_matches matches state)
unfolding visit_matches
visit_matches-Guards [] state = inr (λ m f. f, refl)
visit_matches-Guards (match ∷ matches) state = elim (Bool-cases (is_recursive_func match)) [
  | inl e ↦ inl (match, inl (refl, e), rw (e, visit_matches) refl)
  | inr e ↦ elim (visit_matches-Guards matches state) [
    | inl (m, f, r) ↦ inl (m, inr f, rw (e, visit_matches) r)
    | inr (no_match, r) ↦ inr (
      λ m f. elim f [
        | inl (same, recursive) ↦ false≢true (sym e ∙ ap is_recursive_func same ∙ recursive)
        | inr later ↦ no_match m later
      ],
      rw (e, visit_matches) r,
    )
  ]
]

module _ (get_matches_for_ap : AttachPoint → List Bytes) where
  -- A recursive function that an attach point of a kind that needs the guard attaches to.
  abbrev pub OfAttachPoint : AttachPoint → Bytes → Type 0
  OfAttachPoint ap m =
      (is_fentry_or_fexit (probetype ap.provider) ≡ true) × AmongMatches (get_matches_for_ap ap) m

  abbrev pub OfProbe : List AttachPoint → Bytes → Type 0
  OfProbe [] m = ⊥
  OfProbe (ap ∷ aps) m = OfAttachPoint ap m ⊎ OfProbe aps m

  abbrev pub OfProgram : List (List AttachPoint) → Bytes → Type 0
  OfProgram [] m = ⊥
  OfProgram (probe ∷ probes) m = OfProbe probe m ⊎ OfProgram probes m

  visit_attach_point-Guards :
      (ap : AttachPoint) (state : Checked)
      → Guards (OfAttachPoint ap) state (visit_attach_point get_matches_for_ap ap state)
  unfolding visit_attach_point
  visit_attach_point-Guards point state =
      elim (Bool-cases (is_fentry_or_fexit (probetype point.provider))) [
        | inl e ↦ elim (visit_matches-Guards (get_matches_for_ap point) state) [
          | inl (m, f, r) ↦ inl (m, (e, f), rw (e, visit_attach_point) r)
          | inr (no_match, r) ↦ inr (λ m f. no_match m f.1, rw (e, visit_attach_point) r)
        ]
        | inr e ↦ inr (λ m f. false≢true (sym e ∙ f.0), rw (e, visit_attach_point) refl)
      ]

  visit_probe-Guards :
      (aps : List AttachPoint) (state : Checked)
      → Guards (OfProbe aps) state (visit_probe get_matches_for_ap aps state)
  unfolding visit_probe
  visit_probe-Guards [] state = inr (λ m f. f, refl)
  visit_probe-Guards (point ∷ aps) state = elim (visit_attach_point-Guards point state) [
    | inl (m, f, r) ↦ inl (m, inl f, rw (r, visit_probe) refl)
    | inr (none_here, r) ↦ elim (visit_probe-Guards aps state) [
      | inl (m, f, q) ↦ inl (m, inr f, rw (r, visit_probe) q)
      | inr (none_later, q) ↦ inr (
        λ m f. elim f [ inl here ↦ none_here m here | inr later ↦ none_later m later ],
        rw (r, visit_probe) q,
      )
    ]
  ]

  -- A program that attaches by fentry or fexit to a function of the list is warned of one such
  -- function, and the guard is asked for. Any other program leaves the flag and the warnings as they
  -- were.
  pub visit_program-Guards :
      (probes : List (List AttachPoint)) (state : Checked)
      → Guards (OfProgram probes) state (visit_program get_matches_for_ap probes state)
  unfolding visit_program
  visit_program-Guards [] state = inr (λ m f. f, refl)
  visit_program-Guards (probe ∷ probes) state = elim (visit_probe-Guards probe state) [
    | inl (m, f, r) ↦ inl (m, inl f, rw (r, visit_program) refl)
    | inr (none_here, r) ↦ elim (visit_program-Guards probes state) [
      | inl (m, f, q) ↦ inl (m, inr f, rw (r, visit_program) q)
      | inr (none_later, q) ↦ inr (
        λ m f. elim f [ inl here ↦ none_here m here | inr later ↦ none_later m later ],
        rw (r, visit_program) q,
      )
    ]
  ]
