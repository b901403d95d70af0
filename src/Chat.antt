-- ===== src/Chat.antt =====
-- Direct chats about a Nano between its creator and a user (app/modules/chat).
pub mod Sessions
pub mod Messages
pub mod Privacy
pub mod Delivery
pub mod ContentFilter
pub mod Blocked
pub mod Posting
pub mod Flood
