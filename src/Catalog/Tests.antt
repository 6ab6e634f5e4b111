-- ===== src/Catalog/Tests.antt =====
-- Examples for crates/gateway-api/src/access.rs and ops.rs.
