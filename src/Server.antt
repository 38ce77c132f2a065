-- ===== src/Server.antt =====
-- The server program (Server/src): the users, the disk and its access rules, the request handlers and
-- the session with a client.
pub mod Users
pub mod Uif
pub mod Names
pub mod Reply
pub mod Handler
pub mod Disk
pub mod Sfs
pub mod Requests
pub mod FileWork
pub mod Io
pub mod IoContent
pub mod Session
pub mod Variables
pub mod ConsoleText
pub mod Console
pub mod Config
pub mod FileServer
