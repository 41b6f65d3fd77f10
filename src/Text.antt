-- ===== src/Text.antt =====
-- Text functions of the library that requests are built from and responses are read with.
pub mod Url
pub mod Split
pub mod Ranges
pub mod Params
pub mod Headers
pub mod Toml
