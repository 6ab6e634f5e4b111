-- ===== src/Errors.antt =====
-- The error taxonomy of the Alpaca clients: how src/core.rs, src/auth.rs, src/broker,
-- src/wallet and src/tokenization classify a failure. Payloads that no classification reads
-- (symbols, ids, amounts, response bodies) are left out of the constructors.
pub mod Http
pub mod Sample
pub mod Classes
pub mod Jwt
pub mod Issuer
pub mod MarketData
pub mod Broker
pub mod Wallet
pub mod Tokenization
