-- ===== src/Policy.antt =====
-- src/ltm/policy: who may assign a task to whom.
pub mod Profiles
pub mod Assignment
