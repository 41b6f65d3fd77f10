-- ===== src/Transfer.antt =====
-- Parallel transfer of a file in parts: lib/src/upload.cpp and lib/src/download.cpp.
pub mod Session
pub mod Plan
pub mod Upload
pub mod Download
pub mod Interleaved
mod Examples
