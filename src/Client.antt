-- ===== src/Client.antt =====
-- The RPC client: web/src/protocol/client.ts.
pub mod Rpc
pub mod Calls
pub mod Chunks
pub mod Unary
pub mod Answers
pub mod Writes
mod Tests
