-- ===== src/Hash/Sha256/Reference.antt =====
-- SHA256 as the standard, FIPS 180-4, states it: the message schedule is a growing list of words, a
-- block is 64 rounds over it, and the exclusive or joins the two halves of Ch. The round functions
-- on words that the code shares with the standard are those of the code.
use s3client.Common.{
  ℕ, zero, suc, ◌+◌, ◌-◌, ◌*◌, ◌/◌, bit_and, bit_xor, List, [], ◌∷◌, ◌++◌, Bytes, length, get_or,
  take, drop,
}
use s3client.Common.Word.{◌⊕◌, not32}
use mathlib.Core.List.{reverse}
use s3client.Hash.Utility.{bytes_of, zeros}
use s3client.Hash.Utility.Endian.{word_of}
use s3client.Hash.Sha256.{
  Words, round_constants, big_sigma0, big_sigma1, small_sigma0, small_sigma1, maj, add_words,
  init_hash,
}

unfoldable pub fips_ch : ℕ → ℕ → ℕ → ℕ
fips_ch x y z = bit_xor (bit_and x y) (bit_and (not32 x) z)

-- The words of a message, four bytes each, the most significant byte first.
unfoldable pub words_of : Bytes → List ℕ
words_of (a ∷ b ∷ c ∷ d ∷ rest) = word_of a b c d ∷ words_of rest
words_of other = []

-- W_t from the words before it.
unfoldable pub next_word : List ℕ → ℕ
next_word ws =
    let t = length ws in
    small_sigma1 (get_or ws (t - 2) 0)
    ⊕ get_or ws (t - 7) 0
    ⊕ small_sigma0 (get_or ws (t - 15) 0)
    ⊕ get_or ws (t - 16) 0

-- The next `n` words of the schedule.
unfoldable pub fips_extend : ℕ → List ℕ → List ℕ
fips_extend zero ws = []
fips_extend (suc n) ws = next_word ws ∷ fips_extend n (ws ++ next_word ws ∷ [])

unfoldable pub fips_round : ℕ → ℕ → Words → Words
fips_round t w s =
    let t1 = s.h ⊕ big_sigma1 s.e ⊕ fips_ch s.e s.f s.g ⊕ get_or round_constants t 0 ⊕ w in
    let t2 = big_sigma0 s.a ⊕ maj s.a s.b s.c in
    record { a = t1 ⊕ t2; b = s.a; c = s.b; d = s.c; e = s.d ⊕ t1; f = s.e; g = s.f; h = s.g }

-- The rounds from round `t` on, one for each word of the schedule.
unfoldable pub fips_rounds : ℕ → List ℕ → Words → Words
fips_rounds t [] s = s
fips_rounds t (w ∷ ws) s = fips_rounds (t + 1) ws (fips_round t w s)

unfoldable pub fips_block : Words → Bytes → Words
fips_block hash block =
    let m = words_of block in add_words hash (fips_rounds 0 (m ++ fips_extend 48 m) hash)

-- The hash after `n` blocks.
unfoldable pub fips_blocks : ℕ → Words → Bytes → Words
fips_blocks zero hash message = hash
fips_blocks (suc n) hash message =
    fips_blocks n (fips_block hash (take 64 message)) (drop 64 message)

-- A message, a one bit, `z` zero bytes and the length in bits, its most significant byte first.
abbrev pub padded : Bytes → ℕ → Bytes
padded message z = message ++ (0x80 ∷ (zeros z ++ reverse (bytes_of 8 (8 * length message))))

-- The digest as bytes, each word with its most significant byte first.
unfoldable pub digest_of : Words → Bytes
digest_of s =
    reverse (bytes_of 4 s.a)
    ++ reverse (bytes_of 4 s.b)
    ++ reverse (bytes_of 4 s.c)
    ++ reverse (bytes_of 4 s.d)
    ++ reverse (bytes_of 4 s.e)
    ++ reverse (bytes_of 4 s.f)
    ++ reverse (bytes_of 4 s.g)
    ++ reverse (bytes_of 4 s.h)

unfoldable pub fips_sha256 : Bytes → ℕ → Bytes
fips_sha256 message z =
    let m = padded message z in digest_of (fips_blocks (length m / 64) init_hash m)
