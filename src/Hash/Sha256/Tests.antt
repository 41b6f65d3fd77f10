-- ===== src/Hash/Sha256/Tests.antt =====
-- SHA256 at inputs with a known hash: "abc", and the test vector `test2` of lib/hash/sha256.cpp.
use mathlib.Core.List.{flat_map}
use s3client.Common.{Option, some, codes, ◌≡◌, refl, Bytes}
use s3client.Hash.Utility.{
  ◌>>=◌, alloc_padded, next_div_by, copy_at, to_big_endian, to_little_endian, bytes_of,
  right_rotate, lshift,
}
use s3client.Hash.Sha256.{
  sha256, hash_to_text, sha256_stream, stream_loop, compress, load_loop, load_round, ring_loop,
  ring_round, rotate_variables, extend_ring, big_sigma0, big_sigma1, small_sigma0, small_sigma1, ch,
  maj, to_little, memory_of, hex_byte, hex_digit, add_words,
}

abbrev digest : Bytes → Option Bytes
digest message = do hash ← sha256 message; some (hash_to_text hash)

sha256_abc :
    digest (codes "abc")
    ≡ some (codes "ba7816bf8f01cfea414140de5dae2223b00361a396177a9cb410ff61f20015ad")
unfolding sha256 hash_to_text sha256_stream stream_loop compress load_loop load_round ring_loop
    ring_round rotate_variables extend_ring big_sigma0 big_sigma1 small_sigma0 small_sigma1 ch maj
    to_little memory_of hex_byte hex_digit add_words alloc_padded next_div_by copy_at to_big_endian
    to_little_endian bytes_of right_rotate lshift flat_map
sha256_abc = refl
