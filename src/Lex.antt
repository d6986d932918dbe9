-- ===== src/Lex.antt =====
-- The lexer of TICKscript (tick/ast/lex.go).
pub mod Scan
pub mod Words
pub mod States
pub mod Quoted
pub mod Run
pub mod Tiles
pub mod Ahead
pub mod Idents
pub mod Quotes
pub mod Spaces
pub mod Operators
pub mod Tokens
pub mod Complete
pub mod Wide
