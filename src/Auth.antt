-- ===== src/Auth.antt =====
-- src/auth: the authentication service and what it is built from.
pub mod Errors
pub mod Interfaces
pub mod Lock
pub mod Strategies
pub mod Service
pub mod Guard
pub mod Socket
