-- ===== src/Tests.antt =====
-- Runs of the model at concrete inputs, and the theorems applied to them.
pub mod Samples
mod Names
mod Sessions
mod Rewriting
mod Calls
mod Inputs
mod Lines
mod Images
mod Terms
mod Settings
