-- ===== src/Purchase.antt =====
-- The Purchase module: src/purchase.
pub mod Lifecycle
pub mod History
pub mod Finality
pub mod Reservation
