-- ===== src/Recovery.antt =====
-- The package recovery/task.
pub mod Pipeline
pub mod Upload
