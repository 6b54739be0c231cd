-- ===== src/Models.antt =====
-- pkg/models
pub mod Runtime
pub mod Task
pub mod Graph
