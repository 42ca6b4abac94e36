-- ===== src/Huml.antt =====
-- internal/huml: the workflow language.
pub mod Scan
pub mod Lexer
pub mod Chars
pub mod Ast
pub mod Expr
pub mod Parser
pub mod Convert
pub mod Evaluate
pub mod Interpolate
pub mod Source
pub mod Context
