-- ===== src/Cbor.antt =====
-- web/src/protocol/cbor.ts: the CBOR codec of the wire protocol.
pub mod Value
pub mod Encode
pub mod Decode
pub mod Head
pub mod Sample
mod Tests
pub mod Canonical
pub mod Sorting
pub mod RoundTrip
pub mod Reads
pub mod Containers
pub mod Follows
pub mod Streaming
pub mod Profile
pub mod Ensures
pub mod Arguments
pub mod Sequence
pub mod Incremental
pub mod Resume
pub mod Totality
