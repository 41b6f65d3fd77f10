-- ===== src/Hash/Sha256/File/Streamed.antt =====
-- The hash of a file that is read in blocks is the hash of its bytes in one buffer.
use mathlib.Core.List.{reverse}
use mathlib.Core.Logic.{inl, inr}
use s3client.Common.{
  ℕ, zero, suc, ◌+◌, ◌-◌, ◌*◌, ◌/◌, ◌%◌, ◌^◌, ◌<◌, ◌≤◌, [], ◌∷◌, ◌++◌, length, ◌≡◌, sym, ap, ◌∙◌,
  refl, arith, Option, some, Bytes, true, false, Bool-cases, ltb, ◌==◌, All-append, length-append,
  length-take, length-drop, take-append-drop, take_front, drop_front, append_assoc, take, drop,
}
use s3client.Common.Word.{u64}
use s3client.Hash.Utility.{next_div_by, copy_at, bytes_of, zeros}
use s3client.Hash.Utility.Padding.{
  copy_at_middle, first_write, second_write, length_field, length-zeros, zeros-add,
  next_div_by_least, alloc_padded_layout,
}
use s3client.Hash.Sha256.{Words, init_hash, sha256, sha256_stream}
use s3client.Hash.Sha256.Reference.{fips_block, fips_blocks, padded}
use s3client.Hash.Sha256.Blocks.{
  AreBytes, sha256_stream-fips_blocks, fips_blocks-lt, All-take, All-drop,
}
use s3client.Hash.Sha256.Buffer.{zeros-AreBytes, length_field-AreBytes, length-padded, streamed}
use s3client.Hash.File.{last_message, hash_last, is_eof, file_loop, buf_size}
use s3client.Hash.Sha256.File.{big_endian_field, sha256_file}

-- What follows the bytes of a message of `total` bytes.
abbrev tail : ℕ → ℕ → Bytes
tail z total = 0x80 ∷ (zeros z ++ reverse (bytes_of 8 (8 * total)))

message_of :
    (buf : Bytes) (total sz z : ℕ)
    → 8 * total < 2 ^ 64
    → length buf ≤ total
    → next_div_by (length buf + 1 + 8) 64 ≡ some sz
    → sz ≡ length buf + (1 + (z + 8))
    → last_message sha256_stream big_endian_field buf total ≡ some (buf ++ tail z total)
unfolding last_message big_endian_field
message_of buf total sz z h below found cut =
    let wrap : u64 (length buf + 1 + 8) ≡ length buf + 1 + 8 = omega arith in
    let copied : copy_at (zeros (length buf + (1 + (z + 8)))) 0 buf
        ≡ some (buf ++ zeros (1 + (z + 8))) =
      rw (zeros-add (length buf) (1 + (z + 8))) (
        copy_at_middle [] (zeros (length buf)) (zeros (1 + (z + 8))) buf
          (sym (length-zeros (length buf)))) in
    rw (wrap, found, cut, copied, first_write buf z, length_field total h)
      (second_write buf (length buf) z _ refl (unfold bytes_of in refl))

last_message-padded :
    (buf : Bytes) (total : ℕ)
    → 8 * total < 2 ^ 64
    → length buf ≤ total
    → (z : ℕ) × (last_message sha256_stream big_endian_field buf total ≡ some (buf ++ tail z total))
      × ((length buf + 1 + z + 8) % 64 ≡ 0)
      × (z < 64)
last_message-padded buf total h below =
    let (sz, found, multiple, low, high) =
      next_div_by_least (length buf + 1 + 8) 64 (omega arith) (omega arith) in
    (
      sz - 9 - length buf,
      message_of buf total sz (sz - 9 - length buf) h below found (omega arith),
      omega arith,
      omega arith,
    )

-- Whole blocks in front are hashed first.
fips_blocks-append :
    (a b : ℕ) (hash : Words) (xs ys : Bytes)
    → length xs ≡ 64 * a
    → fips_blocks (a + b) hash (xs ++ ys) ≡ fips_blocks b (fips_blocks a hash xs) ys
unfolding fips_blocks
fips_blocks-append zero b hash [] ys e = let same : zero + b ≡ b = omega arith in rw same refl
fips_blocks-append zero b hash (x ∷ xs) ys e = absurd (omega arith)
fips_blocks-append (suc a) b hash xs ys e =
    let more : suc a + b ≡ suc (a + b) = omega arith in
    let width : length (take 64 xs) ≡ 64 = length-take 64 xs (omega arith) in
    let split : xs ++ ys ≡ take 64 xs ++ (drop 64 xs ++ ys) =
      ap (λ (t : Bytes). t ++ ys) (sym (take-append-drop 64 xs))
      ∙ append_assoc (take 64 xs) (drop 64 xs) ys in
    rw
      (
        more,
        split,
        fips_blocks,
        take_front 64 (take 64 xs) (drop 64 xs ++ ys) width,
        drop_front 64 (take 64 xs) (drop 64 xs ++ ys) width,
      )
      (fips_blocks-append a b (fips_block hash (take 64 xs)) (drop 64 xs) ys
        (omega (arith, length-drop 64 xs)))

tail-AreBytes : (z total : ℕ) → AreBytes (tail z total)
tail-AreBytes z total =
    (omega arith, All-append _ (zeros z) _ (zeros-AreBytes z) (length_field-AreBytes (8 * total)))

length-tail : (z total : ℕ) → length (tail z total) ≡ 1 + z + 8
unfolding bytes_of
length-tail z total =
    omega (arith, length-append (zeros z) (reverse (bytes_of 8 (8 * total))), length-zeros z)

-- What the loop gives from a hash on, for the bytes `file` behind `read` others.
record Hashed (hash : Words) (read : ℕ) (file : Bytes) (result : Option Words) : Type 0 where
  z : ℕ
  hashed :
      result
      ≡ some
          (fips_blocks ((length file + 1 + z + 8) / 64) hash (file ++ tail z (read + length file)))
  whole : (length file + 1 + z + 8) % 64 ≡ 0
  least : z < 64

hash_last-Hashed :
    (hash : Words) (read : ℕ) (file : Bytes)
    → hash.e < 2 ^ 32
    → 8 * (read + length file) < 2 ^ 64
    → AreBytes file
    → Hashed hash read file
        (hash_last sha256_stream big_endian_field hash file (read + length file))
unfolding hash_last
hash_last-Hashed hash read file he fits bytes =
    let total = read + length file in
    let (z, padding, whole, least) = last_message-padded file total fits (omega arith) in
    let width : length (file ++ tail z total) ≡ length file + 1 + z + 8 =
      omega (arith, length-append file (tail z total), length-tail z total) in
    record {
      z = z;
      hashed =
          rw (padding, width)
            (sha256_stream-fips_blocks hash (file ++ tail z total) (length file + 1 + z + 8) he
              (omega arith) (All-append _ file (tail z total) bytes (tail-AreBytes z total)));
      whole = whole;
      least = least;
    }

take_all : (n : ℕ) (xs : Bytes) → length xs ≤ n → take n xs ≡ xs
take_all zero [] h = refl
take_all zero (x ∷ xs) h = absurd (omega arith)
take_all (suc n) [] h = refl
take_all (suc n) (x ∷ xs) h = ap (λ (t : Bytes). x ∷ t) (take_all n xs (omega arith))

is_eof_at :
    (size : ℕ) (file : Bytes)
    → length file ≤ size
    → is_eof size (take size file) (drop size file) ≡ true
unfolding is_eof
is_eof_at size file h =
    let left : length (drop size file) ≡ 0 = omega (arith, length-drop size file) in
    rw (is_eof, take_all size file h) (ground arith)

is_eof_before :
    (size : ℕ) (file : Bytes)
    → size < length file
    → is_eof size (take size file) (drop size file) ≡ false
unfolding is_eof
is_eof_before size file h =
    let left : length (drop size file) ≡ length file - size = length-drop size file in
    let width : length (take size file) ≡ size = length-take size file (omega arith) in ground arith

-- A read that does not reach the end: its whole blocks are hashed before the rest.
read_more :
    (q read : ℕ) (hash : Words) (buf unread : Bytes) (result : Option Words)
    → length buf ≡ 64 * q
    → Hashed (fips_blocks q hash buf) (read + length buf) unread result
    → Hashed hash read (buf ++ unread) result
read_more q read hash buf unread result e h =
    let width : length (buf ++ unread) ≡ length buf + length unread = length-append buf unread in
    let total : read + length buf + length unread ≡ read + length (buf ++ unread) = omega arith in
    let blocks : q + (length unread + 1 + h.z + 8) / 64
        ≡ (length (buf ++ unread) + 1 + h.z + 8) / 64 =
      omega arith in
    record {
      z = h.z;
      hashed =
          h.hashed
          ∙ ap some (
              sym (
                fips_blocks-append q ((length unread + 1 + h.z + 8) / 64) hash buf
                  (unread ++ tail h.z (read + length buf + length unread)) e)
              ∙ rw (blocks, total, append_assoc) refl);
      whole = omega (arith, h.whole);
      least = h.least;
    }

file_loop-Hashed :
    (fuel q read : ℕ) (hash : Words) (file : Bytes)
    → 0 < q
    → length file < fuel
    → 0 < length file
    → hash.e < 2 ^ 32
    → 8 * (read + length file) < 2 ^ 64
    → AreBytes file
    → Hashed hash read file (file_loop sha256_stream big_endian_field fuel (64 * q) read hash file)
unfolding file_loop
file_loop-Hashed zero q read hash file pos enough some_ he fits bytes = absurd (omega arith)
file_loop-Hashed (suc fuel) q read hash file pos enough some_ he fits bytes =
    elim (Bool-cases (ltb (64 * q) (length file))) [
      | inl e ↦
          let buf : Bytes = take (64 * q) file in
          let unread : Bytes = drop (64 * q) file in
          let before : is_eof (64 * q) buf unread ≡ false =
            is_eof_before (64 * q) file (ground arith) in
          let width : length buf ≡ 64 * q = length-take (64 * q) file (ground arith) in
          let left : length unread ≡ length file - 64 * q = length-drop (64 * q) file in
          let below : 64 * q < length file = ground arith in
          let filled : (length buf == 0) ≡ false = ground arith in
          let wrap : u64 (read + length buf) ≡ read + length buf = omega arith in
          let blocks : 64 * q / 64 ≡ q = omega arith in
          let streamed : sha256_stream hash buf (64 * q) ≡ some (fips_blocks q hash buf) =
            sha256_stream-fips_blocks hash buf (64 * q) he (omega arith)
              (All-take (64 * q) file bytes)
            ∙ ap (λ (n : ℕ). some (fips_blocks n hash buf)) blocks in
          let rest : Hashed (fips_blocks q hash buf) (read + length buf) unread (
              file_loop sha256_stream big_endian_field fuel (64 * q) (read + length buf)
                (fips_blocks q hash buf) unread) =
            file_loop-Hashed fuel q (read + length buf) (fips_blocks q hash buf) unread pos
              (omega arith) (omega arith) (fips_blocks-lt q hash buf he) (omega arith)
              (All-drop (64 * q) file bytes) in
          rw (file_loop, before, filled, streamed, wrap)
            (rw (take-append-drop (64 * q) file) at (read_more q read hash buf unread _ width rest))
      | inr e ↦
          let all : take (64 * q) file ≡ file = take_all (64 * q) file (ground arith) in
          let eof : is_eof (64 * q) (take (64 * q) file) (drop (64 * q) file) ≡ true =
            is_eof_at (64 * q) file (ground arith) in
          let filled : (length file == 0) ≡ false = ground arith in
          rw (file_loop, eof, all, filled) (hash_last-Hashed hash read file he fits bytes)
    ]

-- The bytes of a file that opens and is not empty, fewer than 2 ^ 61, have in `sha256_file` the hash that
-- they have in `sha256` in one buffer: the blocks of 16 MiB in which the file is read do not show.
pub sha256_file-sha256 :
    (file : Bytes)
    → 0 < length file
    → 8 * length file < 2 ^ 64
    → AreBytes file
    → sha256_file (some file) ≡ sha256 file
unfolding sha256_file
sha256_file-sha256 file some_ fits bytes =
    let (z, allocated, whole, least) = alloc_padded_layout (length file) fits in
    let h : Hashed init_hash 0 file (
        file_loop sha256_stream big_endian_field (suc (length file)) (64 * 0x40000) 0 init_hash
          file) =
      file_loop-Hashed (suc (length file)) 0x40000 0 init_hash file (omega arith) (omega arith)
        some_ (omega arith) (omega arith) bytes in
    let same : h.z ≡ z = omega (arith, h.whole, h.least) in
    let width : length (padded file z) ≡ length file + 1 + z + 8 = length-padded file z in
    let from_start : 0 + length file ≡ length file = omega arith in
    let looped : file_loop sha256_stream big_endian_field (suc (length file)) buf_size 0 init_hash
          file
        ≡ some (fips_blocks (length (padded file z) / 64) init_hash (padded file z)) =
      h.hashed ∙ ap some (rw (same, width, from_start) refl) in
    rw looped (sym (streamed file z bytes allocated))
