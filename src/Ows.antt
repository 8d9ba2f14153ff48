-- ===== src/Ows.antt =====
-- libs/ogc-kit/ows: the parts of OWS requests and answers that every service shares.
pub mod Request
pub mod Negotiate
pub mod Exception
mod Tests
