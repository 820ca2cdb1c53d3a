-- ===== src/Bot.antt =====
-- cmd/bot: the executable around the relay client.
pub mod TradeStore
pub mod Tui
pub mod Setup
pub mod LogHandler
pub mod EnvFile
