-- ===== src/Examples.antt =====
-- The properties at concrete inputs.
pub mod Samples
pub mod Sorting
mod Stored
pub mod Submitted
mod Extracted
mod Orchestrated
pub mod Processed
mod Connected
mod Described
mod Reached
