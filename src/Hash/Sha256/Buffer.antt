-- ===== src/Hash/Sha256/Buffer.antt =====
-- `sha256` on a whole buffer, and the bytes of its result.
use mathlib.Core.List.{reverse}
use s3client.Common.{
  ℕ, zero, suc, ◌+◌, ◌*◌, ◌/◌, ◌%◌, ◌^◌, ◌<◌, [], ◌∷◌, ◌++◌, length, ◌≡◌, sym, arith, some, Bytes,
  All-append, length-append, take,
}
use s3client.Hash.Utility.{alloc_padded, copy_at, bytes_of, zeros}
use s3client.Hash.Utility.Endian.{bytes_of-to_little_endian}
use s3client.Hash.Utility.Padding.{copy_at_middle, alloc_padded_layout, length-zeros}
use s3client.Hash.Sha256.{Words, init_hash, to_little, memory_of, sha256, add_words}
use s3client.Hash.Sha256.Reference.{fips_block, fips_blocks, padded, digest_of, fips_sha256}
use s3client.Hash.Sha256.Blocks.{AreBytes, sha256_stream-fips_blocks}

pub zeros-AreBytes : (n : ℕ) → AreBytes (zeros n)
zeros-AreBytes zero = tt
zeros-AreBytes (suc n) = (omega arith, zeros-AreBytes n)

pub length_field-AreBytes : (n : ℕ) → AreBytes (reverse (bytes_of 8 n))
unfolding bytes_of
length_field-AreBytes n = omega arith

padded-AreBytes : (message : Bytes) (z : ℕ) → AreBytes message → AreBytes (padded message z)
padded-AreBytes message z h = All-append _ message _ h (
  omega arith,
  All-append _ (zeros z) _ (zeros-AreBytes z) (length_field-AreBytes (8 * length message)),
)

pub length-padded :
    (message : Bytes) (z : ℕ) → length (padded message z) ≡ length message + 1 + z + 8
unfolding bytes_of
length-padded message z =
    let tail : Bytes = 0x80 ∷ (zeros z ++ reverse (bytes_of 8 (8 * length message))) in
    let fields = length-append (zeros z) (reverse (bytes_of 8 (8 * length message))) in
    omega (arith, length-append message tail, fields, length-zeros z)

-- All eight words fit 32 bits.
record AreWords (s : Words) : Type 0 where
  a : s.a < 2 ^ 32
  b : s.b < 2 ^ 32
  c : s.c < 2 ^ 32
  d : s.d < 2 ^ 32
  e : s.e < 2 ^ 32
  f : s.f < 2 ^ 32
  g : s.g < 2 ^ 32
  h : s.h < 2 ^ 32

fips_block-AreWords : (hash : Words) (block : Bytes) → AreWords (fips_block hash block)
unfolding fips_block add_words
fips_block-AreWords hash block = omega arith

fips_blocks-AreWords :
    (n : ℕ) (hash : Words) (message : Bytes) → AreWords hash → AreWords (fips_blocks n hash message)
unfolding fips_blocks
fips_blocks-AreWords zero hash message h = h
fips_blocks-AreWords (suc n) hash message h =
    fips_blocks-AreWords n _ _ (fips_block-AreWords hash (take 64 message))

memory_of-to_little : (s : Words) → AreWords s → memory_of (to_little s) ≡ digest_of s
unfolding memory_of to_little digest_of
memory_of-to_little s h = simp (
  bytes_of-to_little_endian s.a h.a,
  bytes_of-to_little_endian s.b h.b,
  bytes_of-to_little_endian s.c h.c,
  bytes_of-to_little_endian s.d h.d,
  bytes_of-to_little_endian s.e h.e,
  bytes_of-to_little_endian s.f h.f,
  bytes_of-to_little_endian s.g h.g,
  bytes_of-to_little_endian s.h h.h,
)

-- The hash that `sha256` computes from a buffer that is padded by `z` zero bytes.
module _ (input : Bytes) (z : ℕ) (bytes : AreBytes input) where
  pub streamed :
      alloc_padded (length input)
        ≡ some
            (zeros (length input) ++ (0x80 ∷ (zeros z ++ reverse (bytes_of 8 (8 * length input)))))
      → sha256 input
        ≡ some (to_little (fips_blocks (length (padded input z) / 64) init_hash (padded input z)))
  unfolding sha256
  streamed allocated =
      let tail : Bytes = 0x80 ∷ (zeros z ++ reverse (bytes_of 8 (8 * length input))) in
      let copied : copy_at (zeros (length input) ++ tail) 0 input ≡ some (input ++ tail) =
        copy_at_middle [] (zeros (length input)) tail input (sym (length-zeros (length input))) in
      rw (
        allocated,
        copied,
        sha256_stream-fips_blocks init_hash (padded input z) (length (padded input z)) (omega arith)
            (omega arith) (padded-AreBytes input z bytes),
      )

-- For a buffer of bytes, fewer than 2 ^ 61, `sha256` returns a hash, and its bytes in memory are the SHA256
-- digest of the standard; `z` is the number of zero bytes of the padding, the least that fills the
-- last block.
pub sha256-fips_sha256 :
    (input : Bytes)
    → 8 * length input < 2 ^ 64
    → AreBytes input
    → (z : ℕ) × (hash : Words) × (sha256 input ≡ some hash)
      × (memory_of hash ≡ fips_sha256 input z)
      × ((length input + 1 + z + 8) % 64 ≡ 0)
      × (z < 64)
unfolding fips_sha256
sha256-fips_sha256 input fits bytes =
    let (z, allocated, whole, least) = alloc_padded_layout (length input) fits in
    let blocks : ℕ = length (padded input z) / 64 in
    let digest : Words = fips_blocks blocks init_hash (padded input z) in
    (
      z,
      to_little digest,
      streamed input z bytes allocated,
      memory_of-to_little digest
          (fips_blocks-AreWords blocks init_hash (padded input z) (omega arith)),
      whole,
      least,
    )
