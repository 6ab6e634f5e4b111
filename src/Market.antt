-- ===== src/Market.antt =====
-- src/broker/session.rs, market_hours.rs, market_data.rs and positions.rs: what the Broker API and the
-- Market Data API tell of the market's sessions, of prices, and of an account's holdings.
pub mod Hours
pub mod Quotes
pub mod Positions
