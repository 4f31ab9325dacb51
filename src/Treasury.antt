-- ===== src/Treasury.antt =====
-- Direct Treasury Operations: the tables and handlers of src/purchase/journal.ts that
-- src/treasury/operations.ts drives, with the types of src/treasury/operation-journal.ts.
pub mod Types
pub mod Capacity
pub mod Rows
pub mod Tables
pub mod Intake
pub mod Handlers
pub mod Audit
pub mod Moves
pub mod Logs
pub mod Commands
pub mod Sound
pub mod Calls
pub mod Histories
pub mod Safety
pub mod Admission
pub mod Fencing
pub mod Startup
pub mod Readouts
pub mod Preflight
