-- ===== src/Tests.antt =====
-- The properties at concrete inputs, over small services that are kept in memory.
mod Samples
mod Blocks
pub mod Shares
mod Nodes
pub mod Plugins
pub mod Hosts
mod BlockServers
mod ShareServers
mod Services
mod Retries
mod Capabilities
mod Mounts
mod Snapshots
