-- ===== src/Storage/Repository.antt =====
-- storage/repository.py: `TaskRepository` over one session.
pub mod Row
pub mod Lifecycle
pub mod PublicId
pub mod Create
pub mod Query
pub mod Sweep
