-- ===== src/Filter.antt =====
-- libs/ogc-kit/filter: CQL text to expressions (Lexer, Parser) and expressions to SQL (Sql),
-- and XML to expressions (Xml).
pub mod Ast
pub mod Error
pub mod Lexer
pub mod Parser
pub mod Sql
pub mod Xml
mod Tests
