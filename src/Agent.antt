-- ===== src/Agent.antt =====
-- pkg/agent: the loop of one node.
pub mod Report
pub mod Configuration
pub mod Loop
