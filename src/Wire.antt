-- ===== src/Wire.antt =====
-- The messages between the web client and the daemon: web/src/protocol/wire.ts and
-- web/src/protocol/generated/wire.ts.
pub mod Message
pub mod Generated
pub mod Codec
pub mod Fields
pub mod Valued
pub mod Errors
pub mod RoundTrip
pub mod Stream
pub mod Pairs
pub mod Buffer
mod Tests
