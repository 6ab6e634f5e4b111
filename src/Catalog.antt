-- ===== src/Catalog.antt =====
-- The wire contract's catalog: crates/gateway-api/src/access.rs and ops.rs.
pub mod Access
pub mod Operation
pub mod Name
pub mod Tiers
pub mod Laws
mod Tests
