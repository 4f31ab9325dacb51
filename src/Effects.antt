-- ===== src/Effects.antt =====
-- Leases and fenced Effects of the Purchase Journal: src/purchase/journal.ts with the types of
-- src/journal/contracts.ts.
pub mod Leases
pub mod LeaseHistory
pub mod States
pub mod Store
pub mod Handlers
pub mod Safety
pub mod Commands
pub mod Cases
pub mod Histories
