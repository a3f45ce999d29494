-- ===== src/Machines.antt =====
-- The machines that the client knows: web/src/state/machines.ts, machine-store.ts and machine-modal.ts.
pub mod Url
pub mod Store
pub mod Modal
pub mod Forms
pub mod Known
pub mod Credited
pub mod Refused
pub mod Cases
pub mod Pairing
pub mod Dialog
pub mod Stale
mod Tests
