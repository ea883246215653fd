-- ===== src/FormatString/Refused.antt =====
-- What a number format refuses, and that is an error.
use bpftrace.FormatString.Apply.{
  Conversions, Target, Printed, as_number, ok, Cast, as_signed_integer, err, as_unsigned_integer,
  as_floating_point, as_string, as_buffer, to_floating,
}
use bpftrace.Output.Primitive.{Primitive}
use bpftrace.Output.Stream.{Stream}
use bpftrace.Output.Text.{Runtime}
use bpftrace.Prelude.{Bool, Bytes, true, false, ◌≡◌, refl, not, ◌&&◌}
use bpftrace.FormatString.Format.{handle, Handler, signed_integer, unsigned_integer, floating_point}

abbrev pub is_number : Primitive → Bool
is_number (Primitive.symbolic symbol numeric) = true
is_number (Primitive.int64 v) = true
is_number (Primitive.uint64 v) = true
is_number (Primitive.double v) = true
is_number (Primitive.boolean v) = true
is_number _ = false

abbrev pub is_number_format : Handler → Bool
is_number_format (signed_integer target) = true
is_number_format (unsigned_integer target) = true
is_number_format floating_point = true
is_number_format _ = false

abbrev pub is_err : Printed → Bool
is_err (ok ss) = false
is_err (err text) = true

module _ (host : Runtime) (conv : Conversions) where
  as_number-is_err :
      (target : Target) (to : Cast) (ss : Stream) (p : Primitive)
      → is_err (as_number host conv target to ss p) ≡ not (is_number p)
  unfolding as_number
  as_number-is_err target to ss (Primitive.symbolic symbol numeric) = refl
  as_number-is_err target to ss (Primitive.int64 v) = refl
  as_number-is_err target to ss (Primitive.uint64 v) = refl
  as_number-is_err target to ss (Primitive.double v) = refl
  as_number-is_err target to ss (Primitive.boolean v) = refl
  as_number-is_err target to ss _ = refl

  pub handle-is_err :
      (h : Handler) (ss : Stream) (p : Primitive) (length_modifier : Bytes)
      → is_err (handle host conv h ss p length_modifier) ≡ (is_number_format h && not (is_number p))
  unfolding handle as_signed_integer as_unsigned_integer as_floating_point as_string as_buffer
  handle-is_err (signed_integer target) ss p l = as_number-is_err target _ ss p
  handle-is_err (unsigned_integer target) ss p l = as_number-is_err target _ ss p
  handle-is_err floating_point ss p l = as_number-is_err _ to_floating ss p
  handle-is_err (Handler.buffer keep escape) ss (Primitive.buffer buf) l = refl
  handle-is_err (Handler.buffer keep escape) ss p l = refl
  handle-is_err Handler.string ss p l = refl
