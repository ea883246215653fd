-- ===== src/Ast/AttachPoint/Parse/Ends.antt =====
-- The loop over the attach points of a probe ends.
use bpftrace.Prelude.{
  ℕ, zero, suc, ◌+◌, ◌≤◌, ◌≡◌, refl, sym, ap, ◌∙◌, ◌≢◌, ◌⊎◌, inl, inr, Bool, false, Option, none,
  some, List, [], ◌∷◌, ◌++◌, arith, length, length-append,
}
use bpftrace.Ast.AttachPoint.{AttachPoint, Host, State, ok_state, invalid_state, new_aps, skip}
use bpftrace.Ast.AttachPoint.Parse.{
  Loop, Outcome, parse_loop, advance_as, parse_step, then_loop, finish_probe, parse_probe, advanced,
  advance,
}
use bpftrace.Ast.AttachPoint.Lex.Parameters.{NoDollars, dollars}
use bpftrace.Ast.AttachPoint.Parse.Turns.{
  AllNamed, AddsNone, Matches, named_turn, AddsSome, some_turn, Adds,
}
use mathlib.Core.List.{append-nil, append_assoc}

todo_after :
    (st : State) (s : Loop) (rest : List AttachPoint) (o : Outcome)
    → ((advance_as st s rest o).todo ≡ rest)
      ⊎ ((advance_as st s rest o).todo ≡ rest ++ o.new_attach_points)
todo_after ok_state s rest o = inl refl
todo_after invalid_state s rest o = inl refl
todo_after new_aps s rest o = inr refl
todo_after skip s rest o = inl refl

-- The turns that attach points can take, when each can add `k` more.
abbrev pub turns : ℕ → List AttachPoint → ℕ
turns k [] = 0
turns k (a ∷ l) = suc k + turns k l

module _ (n : ℕ) (host : Host) (clean : NoDollars host.params) (listing : Bool) where
  -- The lexer has enough fuel for each text.
  abbrev pub AllLexed : List AttachPoint → Type 0
  AllLexed [] = Unit
  AllLexed (a ∷ l) = (suc (dollars a.raw_input) ≤ n) × AllLexed l

  AllNamed-append :
      (l m : List AttachPoint)
      → AllNamed n host clean listing l
      → AllNamed n host clean listing m
      → AllNamed n host clean listing (l ++ m)
  AllNamed-append [] m h g = g
  AllNamed-append (a ∷ l) m h g = (h.0, AllNamed-append l m h.1 g)

  after_named :
      (s : Loop) (rest : List AttachPoint) (o : Option Outcome) (f : Loop → Option Loop)
      → AddsNone n host clean listing o
      → ((t : Loop) → t.todo ≡ rest → f t ≢ none)
      → then_loop f (advanced s rest o) ≢ none
  after_named s rest none f h g = absurd h
  after_named s rest (some o) f h g = g (advance s rest o) (elim (todo_after o.parsed.0 s rest o) [
    | inl e ↦ e
    | inr e ↦ e ∙ (ap (λ l. rest ++ l) h ∙ append-nil rest)
  ])

  named_end :
      (m : ℕ) (l : List AttachPoint) (s : Loop)
      → AllNamed n host clean listing l
      → length l ≤ m
      → parse_loop m n host listing s l ≢ none
  unfolding parse_loop parse_step
  named_end zero [] s h b = λ e. cc
  named_end zero (a ∷ l) s h b = absurd (omega (arith, b))
  named_end (suc m) [] s h b = λ e. cc
  named_end (suc m) (a ∷ l) s h b =
      after_named s l _ _ (named_turn n host clean listing s.iter_flag a h.0)
        (λ t e. rw e (named_end m l t h.1 (omega (arith, b))))

  module _ (k : ℕ) (kernel : Matches k host.expand_probetype_kernel)
      (user : Matches k host.expand_probetype_userspace) where
    after_some :
        (s : Loop) (rest : List AttachPoint) (o : Option Outcome) (f : Loop → Option Loop)
        → AddsSome n host clean listing k kernel user o
        → ((new : List AttachPoint) (t : Loop)
            → Adds n host clean listing k kernel user new
            → t.todo ≡ rest ++ new
            → f t ≢ none)
        → then_loop f (advanced s rest o) ≢ none
    after_some s rest none f h g = absurd h
    after_some s rest (some o) f h g = elim (todo_after o.parsed.0 s rest o) [
      | inl e ↦ g [] (advance s rest o) (tt, omega arith) (e ∙ sym (append-nil rest))
      | inr e ↦ g o.new_attach_points (advance s rest o) h e
    ]

    loop_end :
        (m : ℕ) (old named : List AttachPoint) (s : Loop)
        → AllLexed old
        → AllNamed n host clean listing named
        → turns k old + length named ≤ m
        → parse_loop m n host listing s (old ++ named) ≢ none
    unfolding parse_loop parse_step
    loop_end m [] named s h g b = named_end m named s g (omega (arith, b))
    loop_end zero (a ∷ old) named s h g b = absurd (omega (arith, b))
    loop_end (suc m) (a ∷ old) named s h g b =
        after_some s (old ++ named) _ _
          (some_turn n host clean listing k kernel user s.iter_flag a h.0)
          (λ new t r e. rw (e ∙ append_assoc old named new) (
            loop_end m old (named ++ new) t h.1 (AllNamed-append named new g r.0)
              (omega (arith, b, length-append named new, r.1))))

    finish_ends : (o : Option Loop) → o ≢ none → finish_probe o ≢ none
    finish_ends none h = absurd (h refl)
    finish_ends (some s) h = λ e. cc

    -- The loop over the attach points of a probe ends: where a pattern matches at most `k` kinds of
    -- probes, whose names have nothing special in them, and the parameters of the command line have
    -- no dollar signs, each attach point takes one turn and adds at most `k`, and the lexer needs
    -- one more unit of fuel than there are dollar signs in the text.
    pub parse_probe-ends :
        (l : List AttachPoint) → AllLexed l → parse_probe (turns k l) n host listing l ≢ none
    unfolding parse_probe
    parse_probe-ends l h = finish_ends _ (
        rw (append-nil l) at (
          loop_end (turns k l) l [] (record { failed = 0; iter_flag = false; done = []; todo = l })
            h tt (omega arith)))
