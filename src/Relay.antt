-- ===== src/Relay.antt =====
-- internal/relay: the client of the signal relay server.
pub mod RateLimit
pub mod CircuitBreaker
pub mod Dedup
pub mod Types
pub mod Validator
pub mod Portfolio
pub mod State
pub mod SigFailures
pub mod Messages
pub mod Canonical
pub mod Intake
pub mod Session
pub mod Reconnect
pub mod Executor
