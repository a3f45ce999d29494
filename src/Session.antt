-- ===== src/Session.antt =====
-- The RPC session of a machine: web/src/state/rpc-session.ts.
pub mod Datagrams
pub mod Pings
pub mod Life
pub mod Rtt
mod Tests
