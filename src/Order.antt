-- ===== src/Order.antt =====
-- src/broker/order.rs and src/broker/lifecycle: orders at the broker, their placement, and the
-- conversions between USDC and dollars.
pub mod Status
pub mod Placement
pub mod Conversion
pub mod Lifecycle
