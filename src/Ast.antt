-- ===== src/Ast.antt =====
-- src/ast: the passes over the syntax tree of a script.
pub mod Expr
pub mod FoldLiterals
pub mod PassManager
pub mod Statement
pub mod ControlFlow
pub mod AttachPoint
pub mod IntegerTypes
pub mod RecursionCheck
