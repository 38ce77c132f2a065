-- ===== src/Client.antt =====
-- The client program (src): its connection, its request handlers, and how they meet the server's.
pub mod Config
pub mod Handler
pub mod Requests
pub mod Files
pub mod Connection
pub mod Answers
pub mod Login
