-- ===== src/Hash/Hmac.antt =====
-- lib/hash/hmac256.cpp: `hmac256`, which hashes two padded buffers in place of calling `sha256`.
pub mod Reference
use s3client.Common.{
  ℕ, ◌+◌, bit_xor, List, Bytes, Option, none, some, leb, ltb, take, if◌then◌else◌, length, map,
}
use s3client.Hash.Utility.{alloc_padded, copy_at, zeros, ◌>>=◌}
use s3client.Hash.Sha256.{Words, init_hash, sha256, sha256_stream, to_little, memory_of}

-- The array `K[64]`, with the length of the message. Of a key longer than a block as many bytes are
-- hashed as the message is long; if the key is shorter, it is read beyond its end: none.
unfoldable pub key_block : ℕ → Bytes → Option Bytes
key_block size key =
    if leb (length key) 64
    then copy_at (zeros 64) 0 key
    else if ltb (length key) size
    then none
    else do hash ← sha256 (take size key); copy_at (zeros 64) 0 (memory_of hash)

-- One of the two hashes: a pad of 64 bytes and the data behind it, padded as a message.
unfoldable pub hash_behind : Bytes → Bytes → Option Words
hash_behind pad input = do
  buffer ← alloc_padded (64 + length input)
  with_pad ← copy_at buffer 0 pad
  message ← copy_at with_pad 64 input
  hash ← sha256_stream init_hash message (length message)
  some (to_little hash)

-- The 32 bytes of `hmac_hash`.
unfoldable pub hmac256 : Bytes → Bytes → Option Bytes
hmac256 input key = do
  k ← key_block (length input) key
  inner_hash ← hash_behind (map (λ b. bit_xor b 0x36) k) input
  hmac_hash ← hash_behind (map (λ b. bit_xor b 0x5c) k) (memory_of inner_hash)
  some (memory_of hmac_hash)
