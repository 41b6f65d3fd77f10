-- ===== src/Http.antt =====
-- The HTTP client: lib/src/webclient.cpp and lib/include/webclient.h.
pub mod Buffers
pub mod Client
pub mod Uploads
mod Examples
