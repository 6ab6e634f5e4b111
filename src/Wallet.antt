-- ===== src/Wallet.antt =====
-- src/wallet: transfers and the polls of them.
pub mod Transfer
pub mod Poll
