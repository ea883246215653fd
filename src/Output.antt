-- ===== src/Output.antt =====
-- src/output: values that a script prints, and the text and JSON that they are printed as.
pub mod Primitive
pub mod Stream
pub mod Text
pub mod Json
pub mod Value
mod Buckets
pub mod Quoted
mod Tests
