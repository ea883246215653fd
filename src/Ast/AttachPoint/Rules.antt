-- ===== src/Ast/AttachPoint/Rules.antt =====
-- src/ast/passes/attachpoint_passes.cpp: what `AttachPointChecker` requires of one attach point,
-- for the kinds of probes with longer checks. Warnings, and the texts of the errors, are left out.
use bpftrace.Prelude.{
  ℕ, Bool, true, false, not, ◌&&◌, ◌||◌, Option, none, some, List, [], ◌∷◌, ◌++◌, ltb, leb, ◌==◌,
  if◌then◌else◌, Bytes, codes, text_eq,
}
use bpftrace.Prelude.Int.{ℤ, pos, negsuc}
use bpftrace.Ast.AttachPoint.{AttachPoint, is_some}
use bpftrace.Ast.AttachPoint.Events.{ProbeListItem, time_units}
use bpftrace.Ast.AttachPoint.Userspace.{is_supported_lang}
use bpftrace.Util.Wildcard.{contains_byte, has_wildcard}

-- The errors, in the order of the source. Some are added for more than one kind of probe.
pub data CheckError : Type 0 where
  no_function no_target no_address unsupported_lang return_offset path_error no_file : CheckError
  no_path no_btf no_unit bad_unit not_integer not_positive no_event unknown_event : CheckError
  event_wildcard no_process no_argument no_function_name zero_address : CheckError
  bad_length no_mode bad_mode duplicate_mode unsupported_mode has_target repeated : CheckError
  bad_signal bad_trigger no_name unknown_iter bad_provider : CheckError

-- What the checker asks of `BPFtrace`, the machine and the kernel. `none` is the error of a search
-- for paths.
pub record CheckHost : Type 0 where
  pub listing : Bool
  pub pid : Option ℕ
  pub has_child : Bool
  pub has_btf_data : Bool
  pub iters : List Bytes
  pub uprobe_paths : Bytes → Option (List Bytes)
  pub usdt_paths : Bytes → List Bytes
  pub argument_registers : ℕ
  pub watchpoint_modes : List Bytes

abbrev pub require : Bool → CheckError → List CheckError
require b e = if b then [] else e ∷ []

abbrev pub is_text : Bytes → Bool
is_text [] = false
is_text (c ∷ s) = true

abbrev pub is_one_of : Bytes → List Bytes → Bool
is_one_of s [] = false
is_one_of s (a ∷ l) = text_eq a s || is_one_of s l

abbrev pub is_zero_ℤ : ℤ → Bool
is_zero_ℤ (pos n) = n == 0
is_zero_ℤ (negsuc n) = false

abbrev pub is_negative : ℤ → Bool
is_negative (pos n) = false
is_negative (negsuc n) = true

-- The target is replaced by the first path, unless it has a star in it.
abbrev pub with_path :
    CheckError → AttachPoint → Option (List Bytes) → AttachPoint × List CheckError
with_path e a none = (a, path_error ∷ [])
with_path e a (some []) = (a, e ∷ [])
with_path e a (some (p ∷ ps)) =
    (if contains_byte a.target b'*' then a else record a { target = p }, [])

unfoldable pub check_user : CheckHost → AttachPoint → AttachPoint × List CheckError
check_user h a =
    let (b, errors) = with_path no_file a (h.uprobe_paths a.target) in
    (
      b,
      require (is_text a.target) no_target
          ++ (require (is_text a.func || not (a.address == 0)) no_address
              ++ (require (not (is_text a.lang) || is_supported_lang a.lang) unsupported_lang
                  ++ (require (not (text_eq a.provider (codes "uretprobe")) || (a.func_offset == 0))
                        return_offset
                      ++ errors))),
    )

abbrev pub usdt_target : CheckHost → AttachPoint → AttachPoint × List CheckError
usdt_target h a =
    if is_text a.target && not (is_some h.pid && has_wildcard a.target)
    then with_path no_file a (some (h.usdt_paths a.target))
    else (a, [])

unfoldable pub check_usdt : CheckHost → AttachPoint → AttachPoint × List CheckError
check_usdt h a =
    let (b, errors) = usdt_target h a in
    (
      b,
      require (is_text a.func) no_function
          ++ (errors ++ require (is_some h.pid || is_text b.target) no_path),
    )

unfoldable pub check_timed : CheckHost → AttachPoint → List CheckError
check_timed h a =
    if not (is_text a.target)
    then no_unit ∷ []
    else if h.listing
    then []
    else require (is_one_of a.target time_units) bad_unit
      ++ (if is_text a.func
          then not_integer ∷ []
          else require (not (is_negative a.freq || is_zero_ℤ a.freq)) not_positive)

abbrev pub is_listed : Bytes → List ProbeListItem → Bool
is_listed t [] = false
is_listed t (p ∷ l) = text_eq t p.path || ((is_text p.alias && text_eq t p.alias) || is_listed t l)

-- Software and hardware events.
unfoldable pub check_event : List ProbeListItem → CheckHost → AttachPoint → List CheckError
check_event events h a =
    (if not (is_text a.target)
      then no_event ∷ []
      else if not (has_wildcard a.target) && not a.ignore_invalid
      then require (is_listed a.target events) unknown_event
      else require h.listing event_wildcard)
    ++ (if is_text a.func
        then not_integer ∷ []
        else require (not (is_negative a.freq)) not_positive)

abbrev pub insert_byte : ℕ → Bytes → Bytes
insert_byte c [] = c ∷ []
insert_byte c (d ∷ s) = if leb c d then c ∷ d ∷ s else d ∷ insert_byte c s

-- `std::ranges::sort`.
unfoldable pub sort_bytes : Bytes → Bytes
sort_bytes [] = []
sort_bytes (c ∷ s) = insert_byte c (sort_bytes s)

abbrev pub mode_errors : Bytes → List CheckError
mode_errors [] = []
mode_errors (c ∷ s) =
    require ((c == b'r') || ((c == b'w') || (c == b'x'))) bad_mode ++ mode_errors s

abbrev pub duplicate_errors : Bytes → List CheckError
duplicate_errors [] = []
duplicate_errors (c ∷ []) = []
duplicate_errors (c ∷ d ∷ s) = require (not (c == d)) duplicate_mode ++ duplicate_errors (d ∷ s)

abbrev pub place_errors : CheckHost → AttachPoint → List CheckError
place_errors h a =
    if is_text a.func
    then require (is_some h.pid || h.has_child) no_process
      ++ require (ltb a.address h.argument_registers) no_argument
    else if text_eq a.provider (codes "asyncwatchpoint")
    then no_function_name ∷ []
    else require (not (a.address == 0)) zero_address

abbrev pub length_ok : ℕ → Bool
length_ok n = (n == 1) || ((n == 2) || ((n == 4) || (n == 8)))

unfoldable pub check_watch : CheckHost → AttachPoint → AttachPoint × List CheckError
unfolding sort_bytes
check_watch h a =
    let sorted = sort_bytes a.mode in
    (
      record a { mode = sorted },
      place_errors h a
          ++ (require (length_ok a.len) bad_length
              ++ (require (is_text a.mode) no_mode
                  ++ (mode_errors sorted
                      ++ (duplicate_errors sorted
                          ++ require (is_one_of sorted h.watchpoint_modes) unsupported_mode)))),
    )
