-- ===== src/Journal.antt =====
-- crates/attractor-journal/src: the journal of a run.
pub mod Event
pub mod Reader
pub mod Writer
pub mod Status
pub mod Lines
pub mod Torn
pub mod Derived
pub mod Faults
pub mod Ended
pub mod Numbers
