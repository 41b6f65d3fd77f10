-- ===== src/Hash/Utility/Endian.antt =====
-- `to_big_endian` and `to_little_endian` of lib/hash/utility.h as statements about bytes.
use s3client.Common.Bits.{bit_and_field, bit_or_fields, bit_or_high, bit_and_mask}
use s3client.Hash.Utility.{to_big_endian, to_little_endian, bytes_of}
use mathlib.Core.List.{reverse}
use s3client.Common.{ℕ, ◌+◌, ◌*◌, ◌/◌, ◌%◌, ◌^◌, ◌<◌, ◌≡◌, arith, bit_and, bit_or}

-- The number that four bytes spell, the most significant first.
abbrev pub word_of : ℕ → ℕ → ℕ → ℕ → ℕ
word_of a b c d = a * 2 ^ 24 + (b * 2 ^ 16 + (c * 2 ^ 8 + d))

pub or_bytes :
    (a b c d : ℕ)
    → a < 256
    → b < 256
    → c < 256
    → d < 256
    → bit_or (bit_or (bit_or (a * 2 ^ 24) (b * 2 ^ 16)) (c * 2 ^ 8)) d ≡ word_of a b c d
or_bytes a b c d ha hb hc hd =
    let e1 = bit_or_high 32 24 a (b * 2 ^ 16) (omega arith) (omega arith) (omega arith) in
    let e2 =
      bit_or_high 32 16 (a * 256 + b) (c * 2 ^ 8) (omega arith) (omega arith) (omega arith) in
    let e3 =
      bit_or_high 32 8 (a * 2 ^ 16 + b * 256 + c) d (omega arith) (omega arith) (omega arith) in
    let s1 : (a * 256 + b) * 2 ^ 16 ≡ a * 2 ^ 24 + b * 2 ^ 16 = omega arith in
    let s2 : (a * 2 ^ 16 + b * 256 + c) * 2 ^ 8 ≡ (a * 2 ^ 24 + b * 2 ^ 16) + c * 2 ^ 8 =
      omega arith in
    let s3 : (a * 2 ^ 16 + b * 256 + c) * 2 ^ 8 + d ≡ word_of a b c d = omega arith in
    cc (e1, e2, e3, s1, s2, s3)

or_bytes_up :
    (a b c d : ℕ)
    → a < 256
    → b < 256
    → c < 256
    → d < 256
    → bit_or (bit_or (bit_or d (c * 2 ^ 8)) (b * 2 ^ 16)) (a * 2 ^ 24) ≡ word_of a b c d
or_bytes_up a b c d ha hb hc hd =
    let e1 = bit_or_fields 8 d c (omega arith) in
    let e2 = bit_or_fields 16 (d + c * 2 ^ 8) b (omega arith) in
    let e3 = bit_or_fields 24 (d + c * 2 ^ 8 + b * 2 ^ 16) a (omega arith) in
    let s3 : d + c * 2 ^ 8 + b * 2 ^ 16 + a * 2 ^ 24 ≡ word_of a b c d = omega arith in
    cc (e1, e2, e3, s3)

-- Swapping the bytes of a word.
pub to_little_endian-word_of :
    (n : ℕ)
    → n < 2 ^ 32
    → to_little_endian n ≡ word_of (n % 256) (n / 256 % 256) (n / 2 ^ 16 % 256) (n / 2 ^ 24)
unfolding to_little_endian
to_little_endian-word_of n h =
    let m0 : bit_and n 0xff000000 / 2 ^ 24 ≡ n / 2 ^ 24 = omega (arith, bit_and_field 24 8 n) in
    let m1 : bit_and n 0x00ff0000 / 2 ^ 8 ≡ n / 2 ^ 16 % 256 * 2 ^ 8 =
      omega (arith, bit_and_field 16 8 n) in
    let m2 : bit_and n 0x0000ff00 * 2 ^ 8 % 2 ^ 32 ≡ n / 256 % 256 * 2 ^ 16 =
      omega (arith, bit_and_field 8 8 n) in
    let m3 : bit_and n 0x000000ff * 2 ^ 24 % 2 ^ 32 ≡ n % 256 * 2 ^ 24 =
      omega (arith, bit_and_mask 8 n) in
    rw (m0, m1, m2, m3)
      (or_bytes_up (n % 256) (n / 256 % 256) (n / 2 ^ 16 % 256) (n / 2 ^ 24) (omega arith)
        (omega arith) (omega arith) (omega arith))

-- A word of 32 bits, written in memory after `to_little_endian`, has its bytes in the other order.
pub bytes_of-to_little_endian :
    (n : ℕ) → n < 2 ^ 32 → bytes_of 4 (to_little_endian n) ≡ reverse (bytes_of 4 n)
unfolding bytes_of
bytes_of-to_little_endian n h = rw (to_little_endian-word_of n h) (ground arith)

module _ (x0 x1 x2 x3 x4 x5 x6 x7 : ℕ) (h0 : x0 < 256) (h1 : x1 < 256) (h2 : x2 < 256)
    (h3 : x3 < 256) (h4 : x4 < 256) (h5 : x5 < 256) (h6 : x6 < 256) (h7 : x7 < 256) where
  or_upper :
      bit_or (bit_or (bit_or (x0 * 2 ^ 56) (x1 * 2 ^ 48)) (x2 * 2 ^ 40)) (x3 * 2 ^ 32)
      ≡ word_of x0 x1 x2 x3 * 2 ^ 32
  or_upper =
      let e1 = bit_or_high 64 56 (x0) (x1 * 2 ^ 48) (omega arith) (omega arith) (omega arith) in
      let e2 =
        bit_or_high 64 48 (x0 * 2 ^ 8 + x1) (x2 * 2 ^ 40) (omega arith) (omega arith)
          (omega arith) in
      let e3 =
        bit_or_high 64 40 (x0 * 2 ^ 16 + x1 * 2 ^ 8 + x2) (x3 * 2 ^ 32) (omega arith) (omega arith)
          (omega arith) in
      let s1 : (x0 * 2 ^ 8 + x1) * 2 ^ 48 ≡ (x0) * 2 ^ 56 + x1 * 2 ^ 48 = omega arith in
      let s2 : (x0 * 2 ^ 16 + x1 * 2 ^ 8 + x2) * 2 ^ 40 ≡ (x0 * 2 ^ 8 + x1) * 2 ^ 48 + x2 * 2 ^ 40 =
        omega arith in
      let s3 : (x0 * 2 ^ 16 + x1 * 2 ^ 8 + x2) * 2 ^ 40 + x3 * 2 ^ 32
          ≡ word_of x0 x1 x2 x3 * 2 ^ 32 =
        omega arith in
      cc (e1, e2, e3, s1, s2, s3)

  or_lower :
      bit_or
        (bit_or
          (bit_or (bit_or (word_of x0 x1 x2 x3 * 2 ^ 32) (x4 * 2 ^ 24)) (x5 * 2 ^ 16))
          (x6 * 2 ^ 8))
        x7
      ≡ word_of x0 x1 x2 x3 * 2 ^ 32 + word_of x4 x5 x6 x7
  or_lower =
      let top : ℕ = word_of x0 x1 x2 x3 in
      let e4 = bit_or_high 64 32 (top) (x4 * 2 ^ 24) (omega arith) (omega arith) (omega arith) in
      let e5 =
        bit_or_high 64 24 (top * 2 ^ 8 + x4) (x5 * 2 ^ 16) (omega arith) (omega arith)
          (omega arith) in
      let e6 =
        bit_or_high 64 16 (top * 2 ^ 16 + x4 * 2 ^ 8 + x5) (x6 * 2 ^ 8) (omega arith) (omega arith)
          (omega arith) in
      let e7 =
        bit_or_high 64 8 (top * 2 ^ 24 + x4 * 2 ^ 16 + x5 * 2 ^ 8 + x6) x7 (omega arith)
          (omega arith) (omega arith) in
      let s4 : (top * 2 ^ 8 + x4) * 2 ^ 24 ≡ (top) * 2 ^ 32 + x4 * 2 ^ 24 = omega arith in
      let s5 : (top * 2 ^ 16 + x4 * 2 ^ 8 + x5) * 2 ^ 16
          ≡ (top * 2 ^ 8 + x4) * 2 ^ 24 + x5 * 2 ^ 16 =
        omega arith in
      let s6 : (top * 2 ^ 24 + x4 * 2 ^ 16 + x5 * 2 ^ 8 + x6) * 2 ^ 8
          ≡ (top * 2 ^ 16 + x4 * 2 ^ 8 + x5) * 2 ^ 16 + x6 * 2 ^ 8 =
        omega arith in
      let s7 : (top * 2 ^ 24 + x4 * 2 ^ 16 + x5 * 2 ^ 8 + x6) * 2 ^ 8 + x7
          ≡ top * 2 ^ 32 + word_of x4 x5 x6 x7 =
        omega arith in
      cc (e4, e5, e6, e7, s4, s5, s6, s7)

-- Swapping the bytes of a double word.
pub to_big_endian-word_of :
    (n : ℕ)
    → n < 2 ^ 64
    → to_big_endian n
      ≡ word_of (n % 256) (n / 2 ^ 8 % 256) (n / 2 ^ 16 % 256) (n / 2 ^ 24 % 256) * 2 ^ 32
        + word_of (n / 2 ^ 32 % 256) (n / 2 ^ 40 % 256) (n / 2 ^ 48 % 256) (n / 2 ^ 56)
unfolding to_big_endian
to_big_endian-word_of n h =
    let m0 : bit_and n 0x00000000000000ff * 2 ^ 56 % 2 ^ 64 ≡ n % 256 * 2 ^ 56 =
      omega (arith, bit_and_mask 8 n) in
    let m1 : bit_and n 0x000000000000ff00 * 2 ^ 40 % 2 ^ 64 ≡ n / 2 ^ 8 % 256 * 2 ^ 48 =
      omega (arith, bit_and_field 8 8 n) in
    let m2 : bit_and n 0x0000000000ff0000 * 2 ^ 24 % 2 ^ 64 ≡ n / 2 ^ 16 % 256 * 2 ^ 40 =
      omega (arith, bit_and_field 16 8 n) in
    let m3 : bit_and n 0x00000000ff000000 * 2 ^ 8 % 2 ^ 64 ≡ n / 2 ^ 24 % 256 * 2 ^ 32 =
      omega (arith, bit_and_field 24 8 n) in
    let m4 : bit_and n 0x000000ff00000000 / 2 ^ 8 ≡ n / 2 ^ 32 % 256 * 2 ^ 24 =
      omega (arith, bit_and_field 32 8 n) in
    let m5 : bit_and n 0x0000ff0000000000 / 2 ^ 24 ≡ n / 2 ^ 40 % 256 * 2 ^ 16 =
      omega (arith, bit_and_field 40 8 n) in
    let m6 : bit_and n 0x00ff000000000000 / 2 ^ 40 ≡ n / 2 ^ 48 % 256 * 2 ^ 8 =
      omega (arith, bit_and_field 48 8 n) in
    let m7 : bit_and n 0xff00000000000000 / 2 ^ 56 ≡ n / 2 ^ 56 =
      omega (arith, bit_and_field 56 8 n) in
    rw (m0, m1, m2, m3, m4, m5, m6, m7)
      (rw
        (or_upper (n % 256) (n / 2 ^ 8 % 256) (n / 2 ^ 16 % 256) (n / 2 ^ 24 % 256)
          (n / 2 ^ 32 % 256) (n / 2 ^ 40 % 256) (n / 2 ^ 48 % 256) (n / 2 ^ 56) (omega arith)
          (omega arith) (omega arith) (omega arith) (omega arith) (omega arith) (omega arith)
          (omega arith))
        (or_lower (n % 256) (n / 2 ^ 8 % 256) (n / 2 ^ 16 % 256) (n / 2 ^ 24 % 256)
          (n / 2 ^ 32 % 256) (n / 2 ^ 40 % 256) (n / 2 ^ 48 % 256) (n / 2 ^ 56) (omega arith)
          (omega arith) (omega arith) (omega arith) (omega arith) (omega arith) (omega arith)
          (omega arith)))

-- A word of 64 bits, written in memory after `to_big_endian`, has its bytes in the other order.
pub bytes_of-to_big_endian :
    (n : ℕ) → n < 2 ^ 64 → bytes_of 8 (to_big_endian n) ≡ reverse (bytes_of 8 n)
unfolding bytes_of
bytes_of-to_big_endian n h = rw (to_big_endian-word_of n h) (ground arith)
