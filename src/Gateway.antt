-- ===== src/Gateway.antt =====
-- The gateway service: crates/gateway/src.
pub mod Budget
pub mod Failure
pub mod Answer
pub mod Admission
pub mod Audit
pub mod Run
pub mod Relay
pub mod Identity
