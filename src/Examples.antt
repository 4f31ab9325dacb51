-- ===== src/Examples.antt =====
-- The theorems at concrete inputs.
mod Data
mod Payment
mod Direct
mod Fenced
mod Mirrored
mod Decisions
mod Driven
mod Approved
mod Shown
mod Reserved
