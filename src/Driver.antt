-- ===== src/Driver.antt =====
-- The driver of direct Treasury Operations, src/treasury/operations.ts: what a driver asks of the
-- Journal and of its adapter, its loop, and any number of drivers over one Journal.
pub mod Process
pub mod Loop
pub mod Schedule
pub mod Launches
pub mod Licences
pub mod Grants
pub mod Once
pub mod Runs
pub mod Bounds
pub mod Ends
pub mod Steps
pub mod Recovers
pub mod Authority
