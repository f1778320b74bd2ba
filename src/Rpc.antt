-- ===== src/Rpc.antt =====
-- src/rpc.rs and src/runtime.rs: the JSON-RPC methods over the database behind its lock.
pub mod BlockNumber
pub mod Runtime
pub mod Eth
pub mod Visitor
pub mod Service
