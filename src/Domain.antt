-- ===== src/Domain.antt =====
-- src/domain: the values that the other parts exchange, and the checks on their construction.
pub mod Symbol
pub mod Events
pub mod Depth
pub mod Health
pub mod Anomaly
pub mod MarketState
pub mod Names
pub mod Valid
pub mod Alphanumeric
