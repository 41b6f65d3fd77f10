-- ===== src/Hash/Hmac/Reference.antt =====
-- HMAC as RFC 2104 states it, over any hash, and which part of it `hmac256` is over `sha256`.
use s3client.Common.{
  ℕ, suc, ◌+◌, ◌-◌, ◌*◌, ◌^◌, ◌≤◌, ◌<◌, [], ◌∷◌, ◌++◌, length, map, bit_xor, leb, ltb, take,
  take_whole, false, ◌≡◌, refl, sym, ap, ◌∙◌, arith, Option, some, none, Bytes, length-append,
  if◌then◌else◌, append_assoc, Bool-cases, inl, inr,
}
use s3client.Hash.Utility.{alloc_padded, copy_at, bytes_of, zeros, ◌>>=◌}
use s3client.Hash.Utility.Padding.{copy_at_middle, alloc_padded_layout, length-zeros, zeros-add}
use s3client.Hash.Sha256.{Words, memory_of, sha256}
use s3client.Hash.Hmac.{key_block, hash_behind, hmac256}
use mathlib.Core.List.{reverse}
use mathlib.Core.Logic.{◌⊎◌}

-- The hash of a buffer as its bytes in memory.
unfoldable pub sha256_bytes : Bytes → Option Bytes
sha256_bytes message = do hash ← sha256 message; some (memory_of hash)

module _ (hash : Bytes → Option Bytes) where
  -- The key, or the hash of a key longer than a block, with zeros up to a block.
  unfoldable pub rfc_key : Bytes → Option Bytes
  rfc_key key =
      if leb (length key) 64
      then some (key ++ zeros (64 - length key))
      else do short ← hash key; some (short ++ zeros (64 - length short))

  -- H((K xor opad) ++ H((K xor ipad) ++ message)).
  unfoldable pub rfc_hmac : Bytes → Bytes → Option Bytes
  rfc_hmac message key = do
    k ← rfc_key key
    inner ← hash (map (λ b. bit_xor b 0x36) k ++ message)
    hash (map (λ b. bit_xor b 0x5c) k ++ inner)

copy_zeros :
    (n : ℕ) (src : Bytes)
    → length src ≤ n
    → copy_at (zeros n) 0 src ≡ some (src ++ zeros (n - length src))
copy_zeros n src h =
    let room : n ≡ length src + (n - length src) = omega arith in
    let spare : Bytes = zeros (n - length src) in
    let cleared : zeros n ≡ zeros (length src) ++ spare =
      ap zeros room ∙ zeros-add (length src) (n - length src) in
    rw cleared (copy_at_middle [] (zeros (length src)) spare src (sym (length-zeros (length src))))

-- Two copies, one behind the other, fill the buffer as one copy of both does.
module _ (pad input tail : Bytes) (width : length pad ≡ 64)
    (allocated : alloc_padded (64 + length input) ≡ some (zeros (64 + length input) ++ tail)) where
  cleared : zeros (64 + length input) ++ tail ≡ zeros 64 ++ (zeros (length input) ++ tail)
  cleared =
      ap (λ t. t ++ tail) (zeros-add 64 (length input))
      ∙ append_assoc (zeros 64) (zeros (length input)) tail

  first_copy :
      copy_at (zeros (64 + length input) ++ tail) 0 pad
      ≡ some (pad ++ (zeros (length input) ++ tail))
  first_copy = rw cleared (copy_at_middle [] (zeros 64) (zeros (length input) ++ tail) pad width)

  second_copy :
      copy_at (pad ++ (zeros (length input) ++ tail)) 64 input ≡ some ((pad ++ input) ++ tail)
  second_copy =
      let step =
        copy_at_middle pad (zeros (length input)) tail input (sym (length-zeros (length input))) in
      rw width at step ∙ ap some (sym (append_assoc pad input tail))

  one_copy :
      copy_at (zeros (64 + length input) ++ tail) 0 (pad ++ input) ≡ some ((pad ++ input) ++ tail)
  one_copy =
      copy_at_middle [] (zeros (64 + length input)) tail (pad ++ input)
        (omega (arith, length-append pad input, length-zeros (64 + length input)))

  same_hash : hash_behind pad input ≡ sha256 (pad ++ input)
  unfolding hash_behind sha256
  same_hash =
      let size : length (pad ++ input) ≡ 64 + length input =
        omega (arith, length-append pad input) in
      rw (size, allocated, first_copy, second_copy, one_copy)

-- `hash_behind` is `sha256` of the pad with the data behind it.
hash_behind-sha256 :
    (pad input : Bytes)
    → length pad ≡ 64
    → 8 * (64 + length input) < 2 ^ 64
    → hash_behind pad input ≡ sha256 (pad ++ input)
hash_behind-sha256 pad input width fits =
    let (z, allocated, whole, least) = alloc_padded_layout (64 + length input) fits in
    same_hash pad input (0x80 ∷ (zeros z ++ reverse (bytes_of 8 (8 * (64 + length input))))) width
      allocated

length-map : (f : ℕ → ℕ) (xs : Bytes) → length (map f xs) ≡ length xs
length-map f [] = refl
length-map f (x ∷ xs) = ap suc (length-map f xs)

length-memory_of : (s : Words) → length (memory_of s) ≡ 32
unfolding memory_of bytes_of
length-memory_of s = refl

short_key :
    (m : Option Words)
    → (do hash ← m; copy_at (zeros 64) 0 (memory_of hash))
      ≡ (do short ← (do hash ← m; some (memory_of hash)); some (short ++ zeros (64 - length short)))
short_key none = refl
short_key (some hash) = copy_zeros 64 (memory_of hash) (omega (arith, length-memory_of hash))

-- The key block of the code is that of the RFC for a key of at most a block, and for one that is as
-- long as the message.
key_block-rfc_key :
    (size : ℕ) (key : Bytes)
    → (length key ≤ 64) ⊎ (length key ≡ size)
    → key_block size key ≡ rfc_key sha256_bytes key
unfolding key_block rfc_key sha256_bytes
key_block-rfc_key size key h = elim (Bool-cases (leb (length key) 64)) [
  | inl e ↦ rw e (copy_zeros 64 key (ground arith))
  | inr e ↦ elim h [
    | inl small ↦ absurd (ground arith)
    | inr same ↦
        let enough : ltb (length key) size ≡ false = ground arith in
        let whole : take size key ≡ key = ap (λ n. take n key) (sym same) ∙ take_whole key in
        rw (e, enough, whole) (short_key (sha256 key))
  ]
]

length-padded_key : (xs : Bytes) → length xs ≤ 64 → length (xs ++ zeros (64 - length xs)) ≡ 64
length-padded_key xs h =
    omega (arith, length-append xs (zeros (64 - length xs)), length-zeros (64 - length xs))

length-short_key :
    (m : Option Words) {k : Bytes}
    → (do short ← (do hash ← m; some (memory_of hash)); some (short ++ zeros (64 - length short)))
      ≡ some k
    → length k ≡ 64
length-short_key none h = cc
length-short_key (some hash) {k} h =
    let e : memory_of hash ++ zeros (64 - length (memory_of hash)) ≡ k = cc in
    rw (← e) (length-padded_key (memory_of hash) (omega (arith, length-memory_of hash)))

length-rfc_key : (key : Bytes) {k : Bytes} → rfc_key sha256_bytes key ≡ some k → length k ≡ 64
unfolding rfc_key sha256_bytes
length-rfc_key key {k} h = elim (Bool-cases (leb (length key) 64)) [
  | inl e ↦
      let same : key ++ zeros (64 - length key) ≡ k = cc (rw e at h) in
      rw (← same) (length-padded_key key (ground arith))
  | inr e ↦ length-short_key (sha256 key) (rw e at h)
]

outer_hash :
    (m : Option Words) (pad : Bytes)
    → length pad ≡ 64
    → (do inner ← m; outer ← hash_behind pad (memory_of inner); some (memory_of outer))
      ≡ (do inner ← (do hash ← m; some (memory_of hash)); sha256_bytes (pad ++ inner))
unfolding sha256_bytes
outer_hash none pad width = refl
outer_hash (some inner) pad width =
    rw (hash_behind-sha256 pad (memory_of inner) width (omega (arith, length-memory_of inner)))

with_key :
    (k : Option Bytes) (input : Bytes)
    → ((b : Bytes) → k ≡ some b → length b ≡ 64)
    → 8 * (64 + length input) < 2 ^ 64
    → (do
      b ← k
      inner ← hash_behind (map (λ x. bit_xor x 0x36) b) input
      outer ← hash_behind (map (λ x. bit_xor x 0x5c) b) (memory_of inner)
      some (memory_of outer))
      ≡ (do
        b ← k
        inner ← sha256_bytes (map (λ x. bit_xor x 0x36) b ++ input)
        sha256_bytes (map (λ x. bit_xor x 0x5c) b ++ inner))
unfolding sha256_bytes
with_key none input width fits = refl
with_key (some b) input width fits =
    let inside = length-map (λ x. bit_xor x 0x36) b ∙ width b refl in
    let outside = length-map (λ x. bit_xor x 0x5c) b ∙ width b refl in
    let ipad = map (λ x. bit_xor x 0x36) b in
    rw (hash_behind-sha256 ipad input inside fits) (
      unfold sha256_bytes in
      outer_hash (sha256 (ipad ++ input)) (map (λ x. bit_xor x 0x5c) b) outside)

-- `hmac256` is the HMAC of RFC 2104 over `sha256`, for keys of at most 64 bytes and for those that are
-- as long as the message, and for messages whose length in bits, with the pad, fits 64 bits.
pub hmac256-rfc_hmac :
    (input key : Bytes)
    → (length key ≤ 64) ⊎ (length key ≡ length input)
    → 8 * (64 + length input) < 2 ^ 64
    → hmac256 input key ≡ rfc_hmac sha256_bytes input key
unfolding hmac256 rfc_hmac
hmac256-rfc_hmac input key h fits =
    rw (key_block-rfc_key (length input) key h)
      (with_key (rfc_key sha256_bytes key) input (λ b e. length-rfc_key key e) fits)
