-- ===== src/Util.antt =====
-- src/util: parsing of integers, text helpers, wildcards and reductions of per-CPU values.
pub mod Strtoull
pub mod IntParser
pub mod PowerOfTwo
pub mod Cpus
pub mod Symbols
pub mod Similar
pub mod Strings
pub mod Wildcard
pub mod Decimal
pub mod Stats
pub mod Tseries
