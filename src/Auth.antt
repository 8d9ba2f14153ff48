-- ===== src/Auth.antt =====
-- services/auth: the authorization service.
pub mod Rules
pub mod Check
pub mod Store
pub mod Admin
pub mod Coherence
mod Tests
