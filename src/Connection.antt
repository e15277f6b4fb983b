-- ===== src/Connection.antt =====
-- nodejs/connection and nodejs/user: the driver, its databases and users, sessions and transactions.
pub mod Network
pub mod Stubs
pub mod Database
pub mod Databases
pub mod Users
pub mod Options
pub mod Session
pub mod Transaction
pub mod TypeDb
pub mod Driver
