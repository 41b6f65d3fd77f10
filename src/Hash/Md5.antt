-- ===== src/Hash/Md5.antt =====
-- lib/hash/md5.cpp and md5.h: the hash of blocks of 64 bytes. A read beyond the data is `none`.
pub mod Bounds
pub mod File
mod Tests
use s3client.Common.{
  ℕ, zero, suc, ◌+◌, ◌-◌, ◌*◌, ◌/◌, ◌%◌, ◌^◌, bit_and, bit_or, bit_xor, List, [], ◌∷◌, Bytes,
  Option, none, some, Bool, true, false, leb, ltb, if◌then◌else◌, length, get_or, take, drop,
}
use s3client.Common.Word.{◌⊕◌, not32}
use s3client.Hash.Utility.{left_rotate, ◌>>=◌}

-- The array `r`, of which every row of sixteen repeats its four shifts.
abbrev pub shifts : List ℕ
shifts =
    7 ∷ 12 ∷ 17 ∷ 22 ∷ 7 ∷ 12 ∷ 17 ∷ 22 ∷ 7 ∷ 12 ∷ 17 ∷ 22 ∷ 7 ∷ 12 ∷ 17 ∷ 22 ∷ 5 ∷ 9 ∷ 14 ∷ 20 ∷ 5
    ∷ 9 ∷ 14 ∷ 20 ∷ 5 ∷ 9 ∷ 14 ∷ 20 ∷ 5 ∷ 9 ∷ 14 ∷ 20 ∷ 4 ∷ 11 ∷ 16 ∷ 23 ∷ 4 ∷ 11 ∷ 16 ∷ 23 ∷ 4 ∷ 11
    ∷ 16 ∷ 23 ∷ 4 ∷ 11 ∷ 16 ∷ 23 ∷ 6 ∷ 10 ∷ 15 ∷ 21 ∷ 6 ∷ 10 ∷ 15 ∷ 21 ∷ 6 ∷ 10 ∷ 15 ∷ 21 ∷ 6 ∷ 10
    ∷ 15 ∷ 21 ∷ []

-- The array `k`.
abbrev pub sines : List ℕ
sines =
    0xd76aa478 ∷ 0xe8c7b756 ∷ 0x242070db ∷ 0xc1bdceee ∷ 0xf57c0faf ∷ 0x4787c62a ∷ 0xa8304613
    ∷ 0xfd469501 ∷ 0x698098d8 ∷ 0x8b44f7af ∷ 0xffff5bb1 ∷ 0x895cd7be ∷ 0x6b901122 ∷ 0xfd987193
    ∷ 0xa679438e ∷ 0x49b40821 ∷ 0xf61e2562 ∷ 0xc040b340 ∷ 0x265e5a51 ∷ 0xe9b6c7aa ∷ 0xd62f105d
    ∷ 0x02441453 ∷ 0xd8a1e681 ∷ 0xe7d3fbc8 ∷ 0x21e1cde6 ∷ 0xc33707d6 ∷ 0xf4d50d87 ∷ 0x455a14ed
    ∷ 0xa9e3e905 ∷ 0xfcefa3f8 ∷ 0x676f02d9 ∷ 0x8d2a4c8a ∷ 0xfffa3942 ∷ 0x8771f681 ∷ 0x6d9d6122
    ∷ 0xfde5380c ∷ 0xa4beea44 ∷ 0x4bdecfa9 ∷ 0xf6bb4b60 ∷ 0xbebfbc70 ∷ 0x289b7ec6 ∷ 0xeaa127fa
    ∷ 0xd4ef3085 ∷ 0x04881d05 ∷ 0xd9d4d039 ∷ 0xe6db99e5 ∷ 0x1fa27cf8 ∷ 0xc4ac5665 ∷ 0xf4292244
    ∷ 0x432aff97 ∷ 0xab9423a7 ∷ 0xfc93a039 ∷ 0x655b59c3 ∷ 0x8f0ccc92 ∷ 0xffeff47d ∷ 0x85845dd1
    ∷ 0x6fa87e4f ∷ 0xfe2ce6e0 ∷ 0xa3014314 ∷ 0x4e0811a1 ∷ 0xf7537e82 ∷ 0xbd3af235 ∷ 0x2ad7d2bb
    ∷ 0xeb86d391 ∷ []

pub record Words4 : Type 0 where
  pub a : ℕ
  pub b : ℕ
  pub c : ℕ
  pub d : ℕ

abbrev pub md5_init : Words4
md5_init = record { a = 0x67452301; b = 0xefcdab89; c = 0x98badcfe; d = 0x10325476 }

-- `w[g]`, a word of a block as a little-endian machine reads it.
pub load_word : Bytes → ℕ → ℕ
load_word block g =
    get_or block (4 * g) 0
    + 2 ^ 8 * get_or block (4 * g + 1) 0
    + 2 ^ 16 * get_or block (4 * g + 2) 0
    + 2 ^ 24 * get_or block (4 * g + 3) 0

-- The values `f` and `g` of a round.
pub round_mix : ℕ → Words4 → ℕ × ℕ
round_mix i s =
    if ltb i 16
    then (bit_or (bit_and s.b s.c) (bit_and (not32 s.b) s.d), i)
    else if ltb i 32
    then (bit_or (bit_and s.d s.b) (bit_and (not32 s.d) s.c), (5 * i + 1) % 16)
    else if ltb i 48
    then (bit_xor (bit_xor s.b s.c) s.d, (3 * i + 5) % 16)
    else (bit_xor s.c (bit_or s.b (not32 s.d)), 7 * i % 16)

pub md5_round : Bytes → ℕ → Words4 → Words4
md5_round block i s =
    let (f, g) = round_mix i s in
    record {
      a = s.d;
      b = s.b ⊕ left_rotate (s.a ⊕ f ⊕ get_or sines i 0 ⊕ load_word block g) (get_or shifts i 0);
      c = s.b;
      d = s.c;
    }

-- The main loop with its remaining rounds.
pub md5_rounds : ℕ → ℕ → Bytes → Words4 → Words4
md5_rounds zero i block s = s
md5_rounds (suc left) i block s = md5_rounds left (i + 1) block (md5_round block i s)

pub md5_block : Words4 → Bytes → Words4
md5_block hash block =
    let s = md5_rounds 64 0 block hash in
    record { a = hash.a ⊕ s.a; b = hash.b ⊕ s.b; c = hash.c ⊕ s.c; d = hash.d ⊕ s.d }

-- The 64 bytes that a pass of the loop reads.
pub block_at : Bytes → ℕ → Option Bytes
block_at input offset =
    if leb (offset + 64) (length input) then some (take 64 (drop offset input)) else none

pub md5_loop : ℕ → ℕ → Words4 → Bytes → ℕ → Option Words4
md5_loop zero offset hash input size = none
md5_loop (suc fuel) offset hash input size = elim (ltb offset size) [
  | false ↦ some hash
  | true ↦ do
    block ← block_at input offset
    md5_loop fuel (offset + 64) (md5_block hash block) input size
]

pub md5_stream : Words4 → Bytes → ℕ → Option Words4
md5_stream hash input size = md5_loop (suc size) 0 hash input size

-- `md5`, which does not pad its buffer.
pub md5 : Bytes → ℕ → Option Words4
md5 input size = md5_stream md5_init input size
