-- ===== src/Rpc.antt =====
-- nodejs/common/rpc and nodejs/connection/TypeDBStubImpl.ts: requests, and the stub that sends them.
pub mod Messages
pub mod Stub
