-- ===== src/Ast/AttachPoint/Parsers/Tests.antt =====
-- The parsers of rates and offsets on small texts, and the theorem on rates there.
use bpftrace.Util.Wildcard.{has_wildcard}
use bpftrace.Prelude.{◌≡◌, refl, false, [], ◌∷◌, arith, codes}
use bpftrace.Util.IntParser.Digits.{Digits, to_uint-decimal, remove_underscores-Digits}
use bpftrace.Util.IntParser.{to_uint}
use bpftrace.Ast.AttachPoint.Parsers.{frequency_parser, ok}
use bpftrace.Ast.AttachPoint.Parsers.Frequency.{IsRate, frequency_parser-IsRate}
use bpftrace.Ast.AttachPoint.{make_attachpoint}

five-Digits : Digits (codes "5000")
five-Digits = (
  (omega arith, omega arith),
  ((omega arith, omega arith), ((omega arith, omega arith), ((omega arith, omega arith), tt))),
)

rate_of_five : to_uint (codes "5000") 0 ≡ ok 5000
rate_of_five =
    to_uint-decimal (codes "5000") b'5' (codes "000")
      (remove_underscores-Digits (codes "5000") five-Digits) (omega arith) (omega arith)
      five-Digits.1

frequency_parser-IsRate_example :
    IsRate
      (codes "5000")
      (frequency_parser (make_attachpoint [] false) (codes "profile" ∷ codes "5000" ∷ []))
unfolding frequency_parser has_wildcard
frequency_parser-IsRate_example =
    frequency_parser-IsRate (make_attachpoint [] false) (codes "profile") (codes "5000") refl
      (rw rate_of_five refl)
