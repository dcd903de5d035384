-- ===== src/Helper.antt =====
-- The helper agent, src/helper-agent: which provider answers, and which tools it may call.
pub mod Circuit
pub mod Probe
pub mod Gateway
pub mod Allowed
pub mod Spent
pub mod Failover
pub mod Fallback
pub mod Returned
mod Examples
