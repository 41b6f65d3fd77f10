-- ===== src/Hash/Sha256/File.antt =====
-- `sha256_file` of lib/hash/sha256.cpp. A file that does not open is `none`.
pub mod Streamed
use s3client.Common.{ℕ, zero, suc, Bytes, Option, none, some, length}
use s3client.Hash.Utility.{bytes_of, to_big_endian, ◌>>=◌}
use s3client.Hash.File.{file_loop, buf_size}
use s3client.Hash.Sha256.{Words, init_hash, sha256_stream, to_little}

-- The length in bits, its bytes in the order of the message.
unfoldable pub big_endian_field : ℕ → Bytes
big_endian_field n = bytes_of 8 (to_big_endian n)

unfoldable pub sha256_file : Option Bytes → Option Words
sha256_file none = none
sha256_file (some file) = do
  hash ← file_loop sha256_stream big_endian_field (suc (length file)) buf_size 0 init_hash file
  some (to_little hash)
