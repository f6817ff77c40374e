-- ===== src/Runtime.antt =====
-- The runtime's planning code, src/runtime/.
pub mod Memory
pub mod Planner
