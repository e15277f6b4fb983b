-- ===== src/Examples.antt =====
-- Tests, and each result at concrete inputs.
pub mod Concepts
pub mod Declared
pub mod Failover
pub mod Hexadecimal
pub mod Manager
pub mod Sessions
pub mod Transports
pub mod Queries
pub mod Rules
pub mod Schemas
pub mod Servers
pub mod Settings
pub mod Streams
pub mod Stubs
pub mod Values
pub mod Pulses
pub mod Methods
pub mod Opened
pub mod Unreachable
