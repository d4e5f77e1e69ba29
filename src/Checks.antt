-- ===== src/Checks.antt =====
-- Concrete libraries that keep the laws, and for each theorem with conditions an input that meets
-- them.
mod Library
mod Text
mod JsonText
mod Ratchet
mod Keys
mod Vault
mod Storage
mod Services
mod VaultKeys
mod Network
mod Auth
mod SignIn
mod Conversations
mod App
mod Startup
