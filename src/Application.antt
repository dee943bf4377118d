-- ===== src/Application.antt =====
-- The use cases that the bot's cards and chat tools share.
pub mod Results
pub mod Tasks
pub mod Drafts
