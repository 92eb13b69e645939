-- ===== src/Tests.antt =====
-- Runs on small inputs, and each theorem at an input that meets its hypotheses.
pub mod Samples
pub mod Lifecycle
pub mod System
pub mod Worker
pub mod Shutdown
pub mod Loops
pub mod Runs
pub mod Slots
pub mod Listing
pub mod Schedule
pub mod Alarm
pub mod Batch
pub mod Process
pub mod Registry
pub mod Serialization
