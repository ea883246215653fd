-- ===== src/Lib.antt =====
-- Parts of bpftrace, the tracing language whose scripts compile to BPF programs, as functions, with the
-- theorems that make them correct. Paths are those of the repository.
--
-- A script is parsed into a syntax tree, passes check and rewrite the tree, and the code generator turns
-- it into BPF. The parts modelled here are called all along that way: integers of the script, of the
-- command line and of options go through the integer parser; the folder of literals evaluates what is
-- known at compile time; sized types decide which values fit where; structs lay out records and tuples;
-- the configuration takes options from the script and from the environment; and the registry resolves
-- the functions that a script calls.
--
-- Prelude: shared names, lists and integers over the native numbers, texts as lists of bytes.
-- Util/IntParser: src/util/int_parser.cpp. `to_uint` and `to_int` keep the order of the source's tests.
--   Util/Strtoull models `strtoull` of the C library after its documentation; `errno` is a flag of its
--   result.
-- Util/Strings: src/util/strings.cpp, and Util/Wildcard: src/util/wildcard.cpp.
-- Util/PowerOfTwo: src/util/math.cpp, Util/Similar: src/util/similar.h, Util/Symbols: src/util/symbols.cpp,
--   and Util/Cpus: src/util/cpus.cpp, whose file is a text here. An exception is `none`.
-- Util/Stats: src/util/stats.h, and Util/Tseries: src/util/tseries.cpp. A value is the list of its cells.
--   The template's parameter is `uint64_t`, for the extremes any signed or unsigned type whose values are
--   integers; the arithmetic of the time series is a parameter.
-- Types: src/types.h and src/types.cpp. A `SizedType` carries its size in bits, as the source's does, and
--   the members that the modelled operations read; types of one shape share a constructor.
-- Struct: src/struct.h and src/struct.cpp. `LoopState` holds the variables of the loop of
--   `CreateRecord`; Struct/Fields and Struct/Manager hold the operations by name. A shared pointer to a
--   struct is the struct, so what one holder writes is not seen by another.
-- Config: src/config.h and src/config.cpp. A configuration is a function from the keys of
--   `CONFIG_KEY_MAP`, which stand for the fields that its parsers point at, to values. `getenv` is a
--   parameter.
-- Output: src/output/output.h, src/output/text.cpp, src/output/json.cpp and src/util/time.cpp. Stream is a
--   `std::ostream` with its manipulators, Text and Json print primitives, and Value prints histograms and
--   maps as JSON; `char` is signed, as on x86. A read past the labels of a histogram is `none`.
-- FormatString: src/format_string.h and src/format_string.cpp. `match_at` is the regular expression, group
--   by group; `parse_loop` walks over the text and counts what is left of the last match. An exception is
--   `none`, and so is a read out of range in `format`. Apply and Format hold what prints an argument.
-- Functions: src/functions.h and src/functions.cpp. A failed assertion and the read through a null
--   pointer are results of `get`.
-- Ast/Expr: src/ast/ast.h and src/ast/ast.cpp, and Ast/FoldLiterals: src/ast/passes/fold_literals.cpp.
--   The folder's visits are functions of the visited operands; the visit of the elements of tuples, of
--   which the rest of the folder is made, is a parameter. `eval_binop` is instantiated at both types of
--   the template. Diagnostics are values beside the result.
-- Ast/Statement: src/ast/ast.h, and Ast/ControlFlow: src/ast/passes/control_flow_analyser.cpp. A visit
--   returns its answer and the node after it, since it rewrites blocks with unreachable statements.
--   Operands that do not run, of `sizeof` and the like and in a `typeof`, are visited as src/ast/visitor.h
--   does, but are no part of a run.
--   Ast/ControlFlow/Runs says how a piece of a script can end; the analyser, and the
--   check of jumps in Ast/ControlFlow/Disallowed, are compared with that.
-- Ast/IntegerTypes: src/ast/integer_types.cpp.
-- ProbeTypes: src/probe_types.h and src/probe_types.cpp.
-- Ast/AttachPoint: src/ast/passes/attachpoint_passes.cpp and `AttachPoint` of src/ast/ast.h. Lex
--   splits the text of an attach point, Parsers and Userspace read the parts for one kind of probe
--   each, Parse chooses among them and loops over the attach points of a probe, Name prints one,
--   and Rules and Check are the checks after that. A parser returns its state and the attach point
--   as it leaves it. `Host` stands for the traced process, the parameters of the command line, and
--   what bcc, the kernel's functions and the probe matcher answer.
-- Util/Decimal: `std::to_string`.
-- Ast/RecursionCheck: src/ast/passes/recursion_check.cpp.
-- Ast/PassManager: src/ast/pass_manager.h and src/ast/pass_manager.cpp. A bug report, which ends the
--   program, is `none`. In Run a pass is a function from the states of its inputs to what it leaves in
--   them and what it returns; a state that is not there is `no_object`.
--
-- A 64-bit unsigned integer is a number with its wrap-around written out. Signed overflow is undefined
-- behaviour in the source and a result of its own here, never a wrapped value. Shifts of signed integers
-- are those of C++20. Sizes and offsets of structs have no bound.
--
-- Recursion follows the data, but for these. The fuel of `analyse` bounds how deep visits of rewritten
-- statements lie in one another; every statement has an answer from some fuel on. `compare_tuples` takes
-- the depth of nested tuples and says so when it runs out. The digits of a number are twenty at most,
-- and twenty-two in other bases than ten, enough for 64 bits. The lexer of attach points has fuel for parameters that are expanded in the values
-- of parameters: one more than there are dollar signs in the text is enough where the values have none.
-- The loop of `parse` has fuel for its turns: one for each attach point, and one for each kind of probe
-- that its pattern matches.
--
-- Not modelled: code generation, which is calls of LLVM; the lexer and the parser, which are generated;
-- semantic analysis; everything that reads the kernel's types and symbols or runs programs; the output of
-- time series, the bars of histograms, and the messages of the outputs.
pub mod Prelude
pub mod Util
pub mod Types
pub mod Struct
pub mod Config
pub mod Output
pub mod FormatString
pub mod Functions
pub mod ProbeTypes
pub mod Ast
