-- ===== src/Redis.antt =====
-- The package redis: instances, the repository of instances on disk, their creation and their
-- processes.
pub mod Instance
pub mod Repository
pub mod Creator
pub mod Process
pub mod Client
