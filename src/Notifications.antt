-- ===== src/Notifications.antt =====
-- src/ltm/notifications
pub mod Events
pub mod Channels
pub mod Service
pub mod Retry
pub mod Jobs
