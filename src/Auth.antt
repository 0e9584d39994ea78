-- ===== src/Auth.antt =====
-- src/auth/inbound: who may call the server.
pub mod Provider
pub mod Token
pub mod Claims
pub mod Authorization
pub mod Accepted
pub mod Validated
pub mod Decisions
pub mod Membership
mod Tests
