-- ===== src/Storage.antt =====
-- The local database (src/storage): its tables and the repositories over them.
pub mod Table
pub mod Accounts
pub mod Conversations
pub mod Messages
pub mod Devices
pub mod SyncRecords
pub mod Jobs
pub mod Search
pub mod Trust
pub mod FileStore
pub mod Migrations
