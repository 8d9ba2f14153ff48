-- ===== src/Gateway.antt =====
-- services/gateway: the service in front of the others, which finds the service of a request, asks
-- whether it is allowed and passes it on.
pub mod Http
pub mod Dispatch
pub mod Authorize
pub mod Limit
pub mod Enforce
mod Tests
