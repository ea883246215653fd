-- ===== src/Ast/AttachPoint/Lex.antt =====
-- src/ast/passes/attachpoint_passes.cpp: `AttachPointParser::lex_attachpoint`, the split of the
-- text of an attach point into its parts.
pub mod Quoted
pub mod Plain
pub mod Parameters
mod Tests
use bpftrace.Prelude.{
  ℕ, zero, suc, ◌+◌, ◌-◌, ◌/◌, ap, Bool, true, false, not, ◌&&◌, Option, none, some, List, [], ◌∷◌,
  ◌++◌, leb, ◌==◌, if◌then◌else◌, Bytes,
}
use bpftrace.Util.IntParser.{Result, to_uint, ok, err}

-- The flag `in_quotes`, and whether the character before was a backslash that escapes.
pub data Mode : Type 0 where
  bare in_quotes escaped : Mode

-- What one turn of the loop does with a character.
pub data Action : Type 0 where
  end_part expand : Action
  leave_out append : Mode → Action

-- `last` says that no character follows.
unfoldable pub action : Mode → ℕ → Bool → Action
action escaped c last = append in_quotes
action in_quotes c last =
    if c == b'"'
    then leave_out bare
    else if (c == b'\\') && not last
    then leave_out escaped
    else append in_quotes
action bare c last =
    if c == b':'
    then end_part
    else if c == b'"'
    then leave_out in_quotes
    else if c == b'$'
    then expand
    else append bare

-- The parts, an error, or out of fuel.
pub data Lexed : Type 0 where
  parts : List Bytes → Lexed
  invalid_part out_of_fuel : Lexed

abbrev pub add_part : Bytes → Lexed → Lexed
add_part argument (parts ps) = parts (argument ∷ ps)
add_part argument r = r

abbrev pub mode_after : Action → Mode
mode_after (leave_out m) = m
mode_after (append m) = m
mode_after _ = bare

abbrev pub argument_after : Action → ℕ → Bytes → Bytes
argument_after (append m) c argument = argument ++ (c ∷ [])
argument_after (leave_out m) c argument = argument
argument_after _ c argument = []

-- `isdigit`.
abbrev pub is_digit : ℕ → Bool
is_digit c = leb b'0' c && leb c b'9'

abbrev pub put_first : ℕ → Bytes × Bytes → Bytes × Bytes
put_first c (digits, rest) = (c ∷ digits, rest)

unfoldable pub span_digits : Bytes → Bytes × Bytes
span_digits [] = ([], [])
span_digits (c ∷ s) =
    let more = span_digits s in if is_digit c then put_first c more else ([], c ∷ s)

-- The loop over the digits behind a dollar sign: a first zero ends it at once.
unfoldable pub parameter_digits : Bytes → Bytes × Bytes
unfolding span_digits
parameter_digits [] = ([], [])
parameter_digits (c ∷ s) = if c == b'0' then ([], c ∷ s) else span_digits (c ∷ s)

abbrev pub is_empty : Bytes → Bool
is_empty [] = true
is_empty (c ∷ s) = false

-- `get_param`, with the parameters of the command line. `at` throws for the index 0.
unfoldable pub get_param : List Bytes → ℕ → Option Bytes
get_param [] i = if i == 0 then none else some []
get_param (p ∷ ps) i = if i == 0 then none else if i == 1 then some p else get_param ps (i - 1)

abbrev pub expanded : (Bytes → Bytes → Lexed) → Bytes → Bytes → Option Bytes → Lexed
expanded again argument rest none = invalid_part
expanded again argument rest (some value) = again argument (value ++ rest)

abbrev pub parameter_value : List Bytes → Result ℕ → Option Bytes
parameter_value params (ok i) = get_param params i
parameter_value params (err e) = none

-- The branch of the dollar sign: the text goes on with the parameter's value in place of its name.
unfoldable pub expand_parameter : List Bytes → (Bytes → Bytes → Lexed) → Bytes → Bytes → Lexed
unfolding parameter_digits get_param
expand_parameter params again argument raw =
    let (digits, rest) = parameter_digits raw in
    if is_empty digits && not (is_empty raw)
    then invalid_part
    else expanded again argument rest (parameter_value params (to_uint digits 10))

abbrev pub finish : Action → Bytes → Lexed → Lexed → Lexed
finish end_part argument rest expansion = add_part argument rest
finish expand argument rest expansion = expansion
finish _ argument rest expansion = rest

-- The loop over the text. The text behind an expanded parameter is read by the argument.
unfoldable pub lex_text : List Bytes → (Bytes → Bytes → Lexed) → Mode → Bytes → Bytes → Lexed
unfolding action expand_parameter
lex_text params again mode argument [] = parts (argument ∷ [])
lex_text params again mode argument (c ∷ raw) =
    let a = action mode c (is_empty raw) in
    finish a argument (lex_text params again (mode_after a) (argument_after a c argument) raw)
      (expand_parameter params again argument raw)

-- Expansions one in another, by fuel.
unfoldable pub lex_bare : ℕ → List Bytes → Bytes → Bytes → Lexed
unfolding lex_text
lex_bare zero params argument raw = out_of_fuel
lex_bare (suc n) params argument raw = lex_text params (lex_bare n params) bare argument raw

unfoldable pub lex_attachpoint : ℕ → List Bytes → Bytes → Lexed
unfolding lex_bare
lex_attachpoint n params raw = lex_bare n params [] raw
