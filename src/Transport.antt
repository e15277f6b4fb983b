-- ===== src/Transport.antt =====
-- nodejs/stream and nodejs/common/util/BlockingQueue.ts: how requests and responses of a transaction
-- travel over one bidirectional stream.
pub mod BlockingQueue
pub mod Collector
pub mod Dispatcher
pub mod Transmitter
pub mod Protocol
pub mod Bidirectional
pub mod PartIterator
