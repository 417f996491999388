-- ===== src/Config.antt =====
-- lib/config
pub mod Lexer
pub mod Parser
pub mod Node
pub mod Schema
mod Tests
