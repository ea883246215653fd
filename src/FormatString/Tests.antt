-- ===== src/FormatString/Tests.antt =====
-- Format strings: runs of src/format_string.cpp at fixed inputs, and instances of the theorems.
use bpftrace.FormatString.{
  FormatSpec, FormatString, parse, parse_loop, match_at, format_spec, flag, number_group,
  precision_group, length_group, specifier_group, stoi, pos, negsuc,
}
use bpftrace.FormatString.Check.{
  ok, err, Error, check, check_types, check_type, check_allowed, find_required, is_allowed,
  has_type, is_none_ty,
}
use bpftrace.FormatString.Accepted.{AllAccept, check-AllAccept}
use bpftrace.FormatString.Apply.{
  Conversions, as_number, as_signed_integer, as_string, put_integer, put_value, cast, wrap_signed,
  wrap_unsigned, modifier_bits,
}
use bpftrace.FormatString.Format.{
  format, format_loop, apply, handle, dispatch, set_stream, embed, back,
}
use bpftrace.FormatString.Counts.{weave, outputs, format-weave}
use bpftrace.FormatString.Escaped.{render, parse-render}
use bpftrace.FormatString.Written.{one}
use bpftrace.FormatString.Width.{Holds, apply-width}
use bpftrace.FormatString.Printed.{bare_spec, to_uint-apply, zeros_before_sign}
use bpftrace.Output.Primitive.{Primitive}
use bpftrace.Output.Stream.{put, signed_text}
use bpftrace.Output.Text.{Runtime, emit}
use bpftrace.Types.{SizedType, Kind, integer, sized}
use bpftrace.Util.Decimal.{to_string, digits}
use bpftrace.Util.IntParser.{to_uint}
use bpftrace.Prelude.{
  ◌≤◌, ◌≡◌, refl, ◌↔◌, true, false, none, some, List, [], ◌∷◌, arith, length, codes, not, ◌&&◌,
}
use bpftrace.FormatString.Refused.{is_err, is_number_format, is_number}
use bpftrace.Util.IntParser

-- A host that prints no floating-point numbers.
abbrev host : Runtime
host = record {
  double_text = λ ss long v. to_string v;
  number_text = λ v. to_string v;
  timestamp_text = λ v. to_string v;
}

abbrev conv : Conversions
conv = record {
  double_of = λ v. 0;
  integer_of = λ signed bits v. pos v;
  pointer_text = λ ss v. to_string v;
}

abbrev five_wide : FormatSpec
five_wide = record {
  left_align = true;
  show_sign = false;
  space_prefix = false;
  alternate_form = false;
  lead_zeros = false;
  width = 5;
  precision = negsuc 0;
  length_modifier = codes "ll";
  specifier = codes "d";
}

abbrev zero_filled : FormatSpec
zero_filled = record five_wide { left_align = false; lead_zeros = true; length_modifier = [] }

-- `pid %-5lld is 100%% %s`.
abbrev pid_format : FormatString
pid_format = record {
  fragments = codes "pid " ∷ codes " is 100% " ∷ [] ∷ [];
  specs = five_wide ∷ bare_spec [] (codes "s") ∷ [];
}

parse_pid : parse (codes "pid %-5lld is 100%% %s") ≡ some pid_format
unfolding parse parse_loop match_at format_spec flag number_group precision_group length_group
    specifier_group stoi
parse_pid = refl

-- What matches nowhere is text.
parse_no_match : parse (codes "50%q") ≡ some (record { fragments = codes "50%q" ∷ []; specs = [] })
unfolding parse parse_loop match_at format_spec flag number_group precision_group length_group
    specifier_group stoi
parse_no_match = refl

-- A width that is no `int` ends the parser with an exception.
parse_huge_width : parse (codes "%2147483648d") ≡ none
unfolding parse parse_loop match_at format_spec flag number_group precision_group length_group
    specifier_group stoi
parse_huge_width = refl

abbrev int64_type : SizedType
int64_type = integer 64 true (codes "int64")

abbrev string_type : SizedType
string_type = sized Kind.string 512 false

check_pid : check pid_format (int64_type ∷ string_type ∷ []) ≡ ok
unfolding check check_types check_type check_allowed find_required is_allowed has_type is_none_ty
check_pid = refl

check_missing : check pid_format (int64_type ∷ []) ≡ err (Error.not_enough_arguments 1 2)
unfolding check
check_missing = refl

check_string_as_number :
    check pid_format (string_type ∷ string_type ∷ [])
    ≡ err (Error.unsupported_type string_type (codes "d"))
unfolding check check_types check_type check_allowed find_required is_allowed has_type is_none_ty
check_string_as_number = refl

abbrev pid_arguments : List Primitive
pid_arguments = Primitive.int64 (pos 42) ∷ Primitive.string (codes "init") ∷ []

format_pid : format host conv pid_format pid_arguments ≡ some (codes "pid 42    is 100% init")
unfolding format format_loop back apply handle dispatch set_stream embed as_signed_integer as_number
    put_value put_integer cast wrap_signed wrap_unsigned modifier_bits as_string emit put
    signed_text to_string digits
format_pid = refl

parse-render_example : parse (render pid_format.fragments pid_format.specs) ≡ some pid_format
parse-render_example = parse-render pid_format (
  record {
    width_fits = omega arith;
    precision_fits = refl;
    length_fits = (refl, (refl, tt));
    specifier_fits = one b'd' _ refl;
  },
  (
    record {
      width_fits = omega arith;
      precision_fits = refl;
      length_fits = tt;
      specifier_fits = one b's' _ refl;
    },
    tt,
  ),
)

check-AllAccept_example :
    (check pid_format (int64_type ∷ string_type ∷ []) ≡ ok)
    ↔ AllAccept pid_format.specs (int64_type ∷ string_type ∷ [])
check-AllAccept_example = check-AllAccept pid_format (int64_type ∷ string_type ∷ [])

format-weave_example :
    format host conv pid_format pid_arguments
    ≡ some (weave pid_format.fragments (outputs host conv pid_format.specs pid_arguments))
format-weave_example =
    format-weave host conv (codes "pid %-5lld is 100%% %s") pid_format
      (int64_type ∷ string_type ∷ []) pid_arguments parse_pid check_pid refl

apply-width_example :
    Holds (λ ss. 5 ≤ length ss.out) (apply host conv five_wide (Primitive.int64 (pos 42)))
    × (is_err (apply host conv five_wide (Primitive.int64 (pos 42))) ≡ (
        is_number_format (dispatch five_wide.specifier)
        && not (is_number (Primitive.int64 (pos 42)))))
apply-width_example = apply-width host conv five_wide (Primitive.int64 (pos 42))

to_uint-apply_example :
    to_uint (embed (apply host conv (bare_spec [] (codes "u")) (Primitive.uint64 4294967301))) 0
    ≡ IntParser.ok 5
unfolding modifier_bits
to_uint-apply_example = to_uint-apply host conv [] 4294967301 refl

zeros_before_sign_example :
    embed (apply host conv zero_filled (Primitive.int64 (negsuc 4))) ≡ codes "000-5"
unfolding to_string digits
zeros_before_sign_example =
    zeros_before_sign host conv zero_filled 4 refl refl refl refl (omega arith)
