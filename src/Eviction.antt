-- ===== src/Eviction.antt =====
-- pkg/agent/eviction: the plugins that propose evictions and the manager that decides on them.
pub mod Signals
pub mod Bucket
pub mod Plugins
pub mod Manager
pub mod Rounds
pub mod Safety
pub mod Distinct
pub mod Budget
mod Tests
