-- ===== src/Exchange.antt =====
-- src/exchange
pub mod Binance
