-- ===== src/Config.antt =====
-- src/config.h and src/config.cpp, with the parser of stack modes of src/types.h: the options,
-- their parsers, and how they are set.
mod Options
mod Parse
mod Names
mod Setting
mod Environment
mod Tests
use bpftrace.Prelude.{◌-◌, ◌/◌, Option, if◌then◌else◌, set}
