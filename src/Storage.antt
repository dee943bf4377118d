-- ===== src/Storage.antt =====
-- src/ltm/storage: the tables and the repositories over them.
pub mod Orm
pub mod Repository
