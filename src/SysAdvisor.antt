-- ===== src/SysAdvisor.antt =====
-- pkg/agent/sysadvisor: how much of a node's capacity may be offered to the reclaimed tier.
pub mod Window
pub mod Advisor
pub mod Recommend
mod Tests
