-- ===== src/Protocol.antt =====
-- The numbers of the protocol that client and server share: requests, errors, roles, file types.
pub mod Request
pub mod Response
pub mod Roles
pub mod Files
pub mod Codes
