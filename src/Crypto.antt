-- ===== src/Crypto.antt =====
-- src/crypto: the wrappers of libsodium, key derivation, the ratchet session and the key stores.
pub mod Sodium
pub mod Helpers
pub mod Hkdf
pub mod Ratchet
pub mod SenderKeys
pub mod SyncWrap
pub mod AttachmentCrypto
pub mod X3dh
pub mod Vault
pub mod Identity
pub mod Prekeys
pub mod Fingerprint
