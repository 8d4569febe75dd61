-- ===== src/Tests.antt =====
-- A small simulation of the other components, runs of the node on it, and the theorems at inputs
-- that meet their hypotheses.
mod Monitors
pub mod Processes
mod Adapters
pub mod Configs
mod Stores
mod Sessions
mod Streams
mod Files
pub mod Simulation
pub mod Samples
mod Examples
