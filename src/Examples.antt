-- ===== src/Examples.antt =====
-- The theorems at concrete inputs.
mod FixedPoint
mod Limits
mod Validation
mod Orders
mod Execution
mod Tables
mod Session
mod Settings
mod Safeguards
mod Keys
mod Signing
mod Terminal
mod Questions
mod Files
mod Logging
