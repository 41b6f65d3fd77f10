-- ===== src/Hash.antt =====
-- The hash library, lib/hash: utilities, SHA256, HMAC and MD5.
pub mod Utility
pub mod File
pub mod Sha256
pub mod Hmac
pub mod Md5
mod Examples
