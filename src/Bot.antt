-- ===== src/Bot.antt =====
-- src/ltm/bot: drafts, mentions, card actions, commands and the tools of the chat.
pub mod Drafts
pub mod Mentions
pub mod CardActions
pub mod Tools
pub mod Commands
