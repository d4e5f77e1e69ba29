-- ===== src/Network/Clients.antt =====
-- src/network: the clients, one method to a request.
pub mod Auth
pub mod Conversations
pub mod Directory
pub mod Sync
pub mod Attachments
