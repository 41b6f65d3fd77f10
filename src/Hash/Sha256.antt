-- ===== src/Hash/Sha256.antt =====
-- lib/hash/sha256.cpp and sha256.h: the compression of 64-byte blocks and the hash of a buffer. The
-- array `hash[8]` and the variables a to h are one record each; `w[16]` is a list of 16 words that
-- the rounds use as a ring. A read beyond the data is `none`.
pub mod Reference
pub mod Schedule
pub mod Blocks
pub mod Buffer
pub mod File
pub mod Bits
pub mod Tests
use mathlib.Core.List.{flat_map}
use s3client.Common.{
  ℕ, zero, suc, ◌+◌, ◌-◌, ◌*◌, ◌/◌, ◌%◌, ◌^◌, bit_and, bit_or, bit_xor, List, [], ◌∷◌, ◌++◌, Bytes,
  Option, none, some, leb, if◌then◌else◌, length, get_or, set, replicate, take, ltb, ◌==◌,
}
use s3client.Common.Word.{u64, ◌⊕◌, ◌>>>◌, not32}
use s3client.Hash.Utility.{
  right_rotate, lshift, next_div_by, alloc_padded, copy_at, to_little_endian, bytes_of, ◌>>=◌,
}

unfoldable pub big_sigma0 : ℕ → ℕ
big_sigma0 x = bit_xor (bit_xor (right_rotate x 2) (right_rotate x 13)) (right_rotate x 22)

unfoldable pub big_sigma1 : ℕ → ℕ
big_sigma1 x = bit_xor (bit_xor (right_rotate x 6) (right_rotate x 11)) (right_rotate x 25)

unfoldable pub ch : ℕ → ℕ → ℕ → ℕ
ch c x y = bit_or (bit_and c x) (bit_and (not32 c) y)

unfoldable pub maj : ℕ → ℕ → ℕ → ℕ
maj x y z = bit_xor (bit_xor (bit_and x y) (bit_and x z)) (bit_and y z)

-- The expressions `sigma0` and `sigma1` of the second loop.
unfoldable pub small_sigma0 : ℕ → ℕ
small_sigma0 x = bit_xor (bit_xor (right_rotate x 7) (right_rotate x 18)) (x >>> 3)

unfoldable pub small_sigma1 : ℕ → ℕ
small_sigma1 x = bit_xor (bit_xor (right_rotate x 17) (right_rotate x 19)) (x >>> 10)

abbrev pub round_constants : List ℕ
round_constants =
    0x428a2f98 ∷ 0x71374491 ∷ 0xb5c0fbcf ∷ 0xe9b5dba5 ∷ 0x3956c25b ∷ 0x59f111f1 ∷ 0x923f82a4
    ∷ 0xab1c5ed5 ∷ 0xd807aa98 ∷ 0x12835b01 ∷ 0x243185be ∷ 0x550c7dc3 ∷ 0x72be5d74 ∷ 0x80deb1fe
    ∷ 0x9bdc06a7 ∷ 0xc19bf174 ∷ 0xe49b69c1 ∷ 0xefbe4786 ∷ 0x0fc19dc6 ∷ 0x240ca1cc ∷ 0x2de92c6f
    ∷ 0x4a7484aa ∷ 0x5cb0a9dc ∷ 0x76f988da ∷ 0x983e5152 ∷ 0xa831c66d ∷ 0xb00327c8 ∷ 0xbf597fc7
    ∷ 0xc6e00bf3 ∷ 0xd5a79147 ∷ 0x06ca6351 ∷ 0x14292967 ∷ 0x27b70a85 ∷ 0x2e1b2138 ∷ 0x4d2c6dfc
    ∷ 0x53380d13 ∷ 0x650a7354 ∷ 0x766a0abb ∷ 0x81c2c92e ∷ 0x92722c85 ∷ 0xa2bfe8a1 ∷ 0xa81a664b
    ∷ 0xc24b8b70 ∷ 0xc76c51a3 ∷ 0xd192e819 ∷ 0xd6990624 ∷ 0xf40e3585 ∷ 0x106aa070 ∷ 0x19a4c116
    ∷ 0x1e376c08 ∷ 0x2748774c ∷ 0x34b0bcb5 ∷ 0x391c0cb3 ∷ 0x4ed8aa4a ∷ 0x5b9cca4f ∷ 0x682e6ff3
    ∷ 0x748f82ee ∷ 0x78a5636f ∷ 0x84c87814 ∷ 0x8cc70208 ∷ 0x90befffa ∷ 0xa4506ceb ∷ 0xbef9a3f7
    ∷ 0xc67178f2 ∷ []

pub record Words : Type 0 where
  pub a : ℕ
  pub b : ℕ
  pub c : ℕ
  pub d : ℕ
  pub e : ℕ
  pub f : ℕ
  pub g : ℕ
  pub h : ℕ

abbrev pub init_hash : Words
init_hash = record {
  a = 0x6a09e667;
  b = 0xbb67ae85;
  c = 0x3c6ef372;
  d = 0xa54ff53a;
  e = 0x510e527f;
  f = 0x9b05688c;
  g = 0x1f83d9ab;
  h = 0x5be0cd19;
}

-- The assignments that both loops make from `tmp1` and `tmp2`.
unfoldable pub rotate_variables : Words → ℕ → ℕ → Words
rotate_variables s tmp1 tmp2 = record {
  a = tmp1 ⊕ tmp2;
  b = s.a;
  c = s.b;
  d = s.c;
  e = s.d ⊕ tmp1;
  f = s.e;
  g = s.f;
  h = s.g;
}

-- A round of the first loop, `i` below 16, after `w[i]` is set.
unfoldable pub load_round : ℕ → List ℕ → Words → Words
load_round i w s =
    let tmp1 = s.h ⊕ big_sigma1 s.e ⊕ ch s.e s.f s.g ⊕ get_or round_constants i 0 ⊕ get_or w i 0 in
    let tmp2 = big_sigma0 s.a ⊕ maj s.a s.b s.c in rotate_variables s tmp1 tmp2

-- The first loop with its remaining rounds, over the unread data.
unfoldable pub load_loop : ℕ → ℕ → List ℕ → Words → Bytes → Option (List ℕ × Words × Bytes)
load_loop zero i w s input = some (w, s, input)
load_loop (suc left) i w s (d0 ∷ d1 ∷ d2 ∷ d3 ∷ input) =
    let word = bit_or (bit_or (bit_or (lshift d0 24) (lshift d1 16)) (lshift d2 8)) (lshift d3 0) in
    let w' = set w i word in load_loop left (i + 1) w' (load_round i w' s) input
load_loop (suc left) i w s input = none

-- `w[i & 0xf] += sigma0 + sigma1 + w[(i + 9) & 0xf]`.
unfoldable pub extend_ring : ℕ → List ℕ → List ℕ
extend_ring i w =
    let sigma0 = small_sigma0 (get_or w (bit_and (i + 1) 0x0f) 0) in
    let sigma1 = small_sigma1 (get_or w (bit_and (i + 14) 0x0f) 0) in
    let at = bit_and i 0xf in
    set w at (get_or w at 0 ⊕ (sigma0 ⊕ sigma1 ⊕ get_or w (bit_and (i + 9) 0xf) 0))

unfoldable pub ring_round : ℕ → List ℕ → Words → Words
ring_round i w s =
    let tmp1 =
      get_or w (bit_and i 0xf) 0
      ⊕ s.h
      ⊕ big_sigma1 s.e
      ⊕ ch s.e s.f s.g
      ⊕ get_or round_constants i 0 in
    let tmp2 = big_sigma0 s.a ⊕ maj s.a s.b s.c in rotate_variables s tmp1 tmp2

-- The second loop with its remaining rounds.
unfoldable pub ring_loop : ℕ → ℕ → List ℕ → Words → Words
ring_loop zero i w s = s
ring_loop (suc left) i w s =
    let w' = extend_ring i w in ring_loop left (i + 1) w' (ring_round i w' s)

unfoldable pub add_words : Words → Words → Words
add_words hash s = record {
  a = hash.a ⊕ s.a;
  b = hash.b ⊕ s.b;
  c = hash.c ⊕ s.c;
  d = hash.d ⊕ s.d;
  e = hash.e ⊕ s.e;
  f = hash.f ⊕ s.f;
  g = hash.g ⊕ s.g;
  h = hash.h ⊕ s.h;
}

-- The body of `while (blocks--)`. What `w` holds before is overwritten; zeros stand for it.
unfoldable pub compress : Words → Bytes → Option (Words × Bytes)
compress hash input = do
  (w, s, rest) ← load_loop 16 0 (replicate 16 0) hash input
  some (add_words hash (ring_loop 48 16 w s), rest)

unfoldable pub stream_loop : ℕ → Words → Bytes → Option Words
stream_loop zero hash input = some hash
stream_loop (suc blocks) hash input = do
  (hash', rest) ← compress hash input
  stream_loop blocks hash' rest

unfoldable pub sha256_stream : Words → Bytes → ℕ → Option Words
sha256_stream hash input length = stream_loop (length / 64) hash input

unfoldable pub to_little : Words → Words
to_little s = record {
  a = to_little_endian s.a;
  b = to_little_endian s.b;
  c = to_little_endian s.c;
  d = to_little_endian s.d;
  e = to_little_endian s.e;
  f = to_little_endian s.f;
  g = to_little_endian s.g;
  h = to_little_endian s.h;
}

-- The bytes of the array `hash` in memory.
unfoldable pub memory_of : Words → Bytes
memory_of s =
    bytes_of 4 s.a
    ++ bytes_of 4 s.b
    ++ bytes_of 4 s.c
    ++ bytes_of 4 s.d
    ++ bytes_of 4 s.e
    ++ bytes_of 4 s.f
    ++ bytes_of 4 s.g
    ++ bytes_of 4 s.h

-- `sha256` on a whole buffer. The message is built in a stack or in a heap buffer; both are cleared.
unfoldable pub sha256 : Bytes → Option Words
sha256 input = do
  buffer ← alloc_padded (length input)
  message ← copy_at buffer 0 input
  hash ← sha256_stream init_hash message (length message)
  some (to_little hash)

-- `sha256_next`. The last block is padded into `message`, and `data` is hashed.
pub sha256_next : Bytes → ℕ → Words → ℕ → Option Words
sha256_next input chunk hash total_length =
    if total_length == 0 then sha256_stream hash input chunk else do
      buffer ← alloc_padded chunk
      message ← copy_at buffer 0 (take chunk input)
      sha256_stream hash input (length message)

-- `%02x` of a byte.
unfoldable pub hex_digit : ℕ → ℕ
hex_digit n = if ltb n 10 then b'0' + n else b'a' + (n - 10)

unfoldable pub hex_byte : ℕ → Bytes
hex_byte n = hex_digit (n / 16) ∷ hex_digit (n % 16) ∷ []

-- The text of `hash_to_text`, less its terminating zero.
unfoldable pub hash_to_text : Words → Bytes
hash_to_text s = flat_map hex_byte (memory_of s)
