-- ===== src/Shell.antt =====
-- The shell of the client (src/shell and src/util): how a line that was typed becomes a command.
pub mod EnvVars
pub mod CommandLine
pub mod Resolved
pub mod Quoted
pub mod Commands
pub mod Dispatch
pub mod Run
pub mod Perform
pub mod Prompt
pub mod Help
