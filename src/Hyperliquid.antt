-- ===== src/Hyperliquid.antt =====
-- internal/hyperliquid: the client of the exchange.
pub mod Types
pub mod Nonce
pub mod Exchange
pub mod Assets
pub mod KillSwitch
pub mod Signer
