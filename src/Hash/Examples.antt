-- ===== src/Hash/Examples.antt =====
-- The theorems on lib/hash at concrete inputs.
use s3client.Common.{
  ℕ, inl, ◌+◌, ◌*◌, ◌/◌, ◌%◌, ◌<◌, [], ◌∷◌, ◌++◌, Bytes, some, ◌≡◌, refl, length, replicate, arith,
}
use mathlib.Core.List.{reverse}
use s3client.Hash.Utility.{bytes_of, alloc_padded, zeros}
use s3client.Hash.Utility.Padding.{alloc_padded_layout}
use s3client.Hash.Sha256.{Words, init_hash, sha256, memory_of, sha256_stream, ring_loop}
use s3client.Hash.Sha256.Reference.{fips_sha256, fips_blocks, fips_rounds, fips_extend}
use s3client.Hash.Sha256.Schedule.{Ring, ring_loop-fips_rounds}
use s3client.Hash.Sha256.Blocks.{sha256_stream-fips_blocks, AreBytes, first-Ring}
use s3client.Hash.Sha256.Buffer.{sha256-fips_sha256}
use s3client.Hash.Sha256.File.{sha256_file}
use s3client.Hash.Sha256.File.Streamed.{sha256_file-sha256}
use s3client.Hash.Hmac.{hmac256}
use s3client.Hash.Hmac.Reference.{hmac256-rfc_hmac, rfc_hmac, sha256_bytes}

abbrev abc : Bytes
abc = 97 ∷ 98 ∷ 99 ∷ []

abbrev block : Bytes
block = replicate 64 97

abc_bytes : AreBytes abc
abc_bytes = (omega arith, (omega arith, (omega arith, tt)))

block_bytes : AreBytes block
block_bytes = ground arith

abbrev ring : Bytes
ring = replicate 16 7

same_ring : Ring 16 ring ring
same_ring = first-Ring ring refl

sha256-fips_sha256_example :
    (z : ℕ) × (hash : Words) × (sha256 abc ≡ some hash)
    × (memory_of hash ≡ fips_sha256 abc z)
    × ((length abc + 1 + z + 8) % 64 ≡ 0)
    × (z < 64)
sha256-fips_sha256_example = sha256-fips_sha256 abc (omega arith) abc_bytes

sha256_file-sha256_example : sha256_file (some abc) ≡ sha256 abc
sha256_file-sha256_example = sha256_file-sha256 abc (omega arith) (omega arith) abc_bytes

sha256_stream-fips_blocks_example :
    sha256_stream init_hash block 64 ≡ some (fips_blocks (64 / 64) init_hash block)
sha256_stream-fips_blocks_example =
    sha256_stream-fips_blocks init_hash block 64 (omega arith) (omega arith) block_bytes

ring_loop-fips_rounds_example :
    ring_loop 48 16 ring init_hash ≡ fips_rounds 16 (fips_extend 48 ring) init_hash
ring_loop-fips_rounds_example =
    ring_loop-fips_rounds 48 16 ring ring init_hash (omega arith) same_ring

hmac256-rfc_hmac_example : hmac256 abc block ≡ rfc_hmac sha256_bytes abc block
hmac256-rfc_hmac_example = hmac256-rfc_hmac abc block (inl (omega arith)) (omega arith)

abbrev long_key : ℕ → Bytes
long_key last = replicate 64 97 ++ last ∷ []

alloc_padded_layout_example :
    (z : ℕ) × (alloc_padded 56
      ≡ some (zeros 56 ++ (0x80 ∷ (zeros z ++ reverse (bytes_of 8 (8 * 56))))))
    × ((56 + 1 + z + 8) % 64 ≡ 0)
    × (z < 64)
alloc_padded_layout_example = alloc_padded_layout 56 (omega arith)
