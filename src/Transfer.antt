-- ===== src/Transfer.antt =====
-- Transfers: src/transfer/state-machine.ts and the Journal's Transfer rows (src/purchase/journal.ts).
pub mod Lifecycle
pub mod Rows
pub mod Intake
pub mod Decisions
pub mod Audit
pub mod Calls
pub mod Moves
pub mod Writes
pub mod History
pub mod Settling
pub mod Deciding
pub mod Approval
pub mod Startup
pub mod Mirror
