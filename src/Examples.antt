-- ===== src/Examples.antt =====
-- Concrete pipelines and runs, on which the theorems are applied.
pub mod Fixtures
pub mod Routing
pub mod Files
pub mod Journals
pub mod Running
pub mod Plans
pub mod Agents
