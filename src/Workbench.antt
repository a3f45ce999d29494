-- ===== src/Workbench.antt =====
-- web/src/state/workbench.ts: the panes and tabs of the workbench.
pub mod Model
pub mod Tabs
pub mod Storage
pub mod State
pub mod Moves
pub mod Setters
pub mod Scopes
pub mod Focus
pub mod Counts
pub mod History
pub mod Panes
pub mod Invariant
pub mod Steps
pub mod Moving
pub mod Moved
pub mod Setting
pub mod Opening
pub mod NewPane
pub mod Reach
mod Tests
