-- ===== src/Explorer.antt =====
-- The file explorer: web/src/state/explorer.ts.
pub mod Model
pub mod Paths
pub mod Navigation
pub mod Rows
pub mod View
pub mod Refines
pub mod Roots
pub mod Parents
pub mod Back
mod Tests
