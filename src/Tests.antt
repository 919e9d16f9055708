-- ===== src/Tests.antt =====
-- The theorems at concrete inputs.
mod Data
mod Blocks
mod Nodes
mod Instances
mod Runs
mod Files
mod Starts
mod Modules
mod Memories
mod Protos
mod Calls
