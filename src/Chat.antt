-- ===== src/Chat.antt =====
-- internal/chat: the chat with the expert.
pub mod Blocks
pub mod Cut
pub mod Kept
pub mod Parser
pub mod Stream
