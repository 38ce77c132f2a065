-- ===== src/Smcl.antt =====
-- The language files of the client (SMCL): src/shell/lang.
pub mod Lexer
pub mod Strings
pub mod Progress
pub mod Parser
pub mod Steps
pub mod Sound
pub mod Scopes
pub mod Ends
pub mod Stream
pub mod AllTokens
pub mod Formatter
pub mod Filled
