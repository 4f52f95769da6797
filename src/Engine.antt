-- ===== src/Engine.antt =====
-- crates/attractor-pipeline/src/engine.rs: the execution loop.
pub mod Exec
pub mod Events
pub mod Keys
pub mod State
pub mod Invoke
pub mod Stage
pub mod Run
pub mod Frames
pub mod Quiet
pub mod Steps
pub mod Attempts
pub mod Owed
pub mod Starts
pub mod Turns
pub mod Jumps
pub mod Covered
pub mod Resume
pub mod Termination
pub mod Delays
pub mod Reserved
pub mod Endings
pub mod Answers
pub mod Compiled
