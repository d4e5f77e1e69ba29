-- ===== src/Services.antt =====
-- The services between the server, the local database and the user interface (src/services).
pub mod Sync
pub mod MessageSend
pub mod Attachments
pub mod Auth
pub mod Conversation
pub mod Search
pub mod Notification
pub mod Discovery
