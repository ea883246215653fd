-- ===== src/Ast/AttachPoint.antt =====
-- src/ast/ast.h and src/ast/passes/attachpoint_passes.cpp: attach points and how they are read. The
-- texts of the errors are left out.
pub mod Lex
mod Parsers
mod Userspace
mod Parse
mod Name
mod Events
mod Rules
mod Check
use bpftrace.Prelude.{
  ℕ, zero, ◌-◌, ◌/◌, ap, Bool, true, false, not, Option, none, some, List, [], if◌then◌else◌, set,
  Bytes,
}
use bpftrace.Prelude.Int.{
  ℤ, pos, negsuc, pos_part, neg_part, sub_ℕ, ◌+ℤ◌, ◌-ℤ◌, ◌*ℤ◌, ◌≤ℤ◌, ltb_ℤ, +ℤ_parts, -ℤ_parts,
  eq_of_parts, int_laws,
}

-- `AttachPoint`. The resolved `usdt` entry, which the parser does not touch, is left out.
pub record AttachPoint : Type 0 where
  pub raw_input : Bytes
  pub provider : Bytes
  pub target : Bytes
  pub lang : Bytes
  pub ns : Bytes
  pub func : Bytes
  pub pin : Bytes
  pub freq : ℤ
  pub len : ℕ
  pub mode : Bytes
  pub async : Bool
  pub address : ℕ
  pub func_offset : ℕ
  pub bpf_prog_id : ℕ
  pub ignore_invalid : Bool

-- A new attach point: what is not given is empty or zero.
abbrev pub make_attachpoint : Bytes → Bool → AttachPoint
make_attachpoint text ignore = record {
  raw_input = text;
  provider = [];
  target = [];
  lang = [];
  ns = [];
  func = [];
  pin = [];
  freq = pos 0;
  len = 0;
  mode = [];
  async = false;
  address = 0;
  func_offset = 0;
  bpf_prog_id = 0;
  ignore_invalid = ignore;
}

-- `AttachPointParser::State`.
pub data State : Type 0 where
  ok_state invalid_state new_aps skip : State

-- What a parser gives: its state, and the attach point as it has left it.
abbrev pub Parsed : Type 0
Parsed = State × AttachPoint

-- `BPFtrace`, as far as the parser asks it: the process that is traced with its executable, the
-- parameters of the command line, the library that `bcc` finds for a name, the binary for
-- watchpoints, the modules of a function, and the kinds of probes that a pattern matches.
pub record Host : Type 0 where
  pub pid : Option ℕ
  pub pid_exe : Bytes
  pub params : List Bytes
  pub which_so : Bytes → Option Bytes
  pub watchpoint_binary_path : Option Bytes
  pub get_func_modules : Bytes → List Bytes
  pub expand_probetype_kernel : Bytes → List Bytes
  pub expand_probetype_userspace : Bytes → List Bytes

abbrev pub is_some {ℓ} : {A : Type ℓ} → Option A → Bool
is_some none = false
is_some (some a) = true
