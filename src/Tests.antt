-- ===== src/Tests.antt =====
-- The theorems at concrete inputs, one module for each part of the program.
mod Wires
mod Transfers
mod Sessions
mod Clients
mod Lines
mod Languages
mod Files
mod Consoles
mod Commands
