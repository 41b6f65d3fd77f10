-- ===== src/Hash/Sha256/Blocks.antt =====
-- `sha256_stream` against the standard: what each block does, and the data in parts.
use s3client.Common.{
  ℕ, zero, suc, ◌+◌, ◌*◌, ◌/◌, ◌%◌, ◌^◌, ◌≤◌, ◌<◌, bit_or, List, [], ◌∷◌, ◌++◌, length, get_or, set,
  ◌≡◌, refl, sym, ap, ◌∙◌, arith, some, Bytes, All, replicate, length-append, append_assoc,
  append-nil, take, drop, take-append-drop, length-take, length-drop,
}
use s3client.Hash.Utility.{lshift}
use s3client.Hash.Utility.Endian.{word_of, or_bytes}
use s3client.Hash.Sha256.{
  Words, load_loop, load_round, ring_loop, compress, stream_loop, sha256_stream, add_words,
  rotate_variables,
}
use s3client.Hash.Sha256.Reference.{
  words_of, fips_extend, fips_round, fips_rounds, fips_block, fips_blocks,
}
use s3client.Hash.Sha256.Bits.{ch-fips_ch}
use s3client.Hash.Sha256.Schedule.{Ring, ring_loop-fips_rounds, fips_round-lt}

abbrev pub AreBytes : Bytes → Type 0
AreBytes = All (λ b. b < 256)

word-word_of :
    (a b c d : ℕ)
    → a < 256
    → b < 256
    → c < 256
    → d < 256
    → bit_or (bit_or (bit_or (lshift a 24) (lshift b 16)) (lshift c 8)) (lshift d 0)
      ≡ word_of a b c d
unfolding lshift
word-word_of a b c d ha hb hc hd =
    let ea : a * 2 ^ 24 % 2 ^ 32 ≡ a * 2 ^ 24 = omega arith in
    let eb : b * 2 ^ 16 % 2 ^ 32 ≡ b * 2 ^ 16 = omega arith in
    let ec : c * 2 ^ 8 % 2 ^ 32 ≡ c * 2 ^ 8 = omega arith in
    let ed : d * 2 ^ 0 % 2 ^ 32 ≡ d = omega arith in
    rw (ea, eb, ec, ed) (or_bytes a b c d ha hb hc hd)

load_round-fips_round :
    (i x : ℕ) (w : List ℕ) (s : Words)
    → s.e < 2 ^ 32
    → get_or w i 0 ≡ x
    → load_round i w s ≡ fips_round i x s
unfolding load_round fips_round rotate_variables
load_round-fips_round i x w s he e = rw (e, ch-fips_ch s.e s.f s.g he)

set-append : (xs ys : List ℕ) (y v : ℕ) → set (xs ++ y ∷ ys) (length xs) v ≡ (xs ++ v ∷ []) ++ ys
set-append [] ys y v = refl
set-append (x ∷ xs) ys y v = ap (λ t. x ∷ t) (set-append xs ys y v)

get_or-middle : (xs ys : List ℕ) (v : ℕ) → get_or ((xs ++ v ∷ []) ++ ys) (length xs) 0 ≡ v
get_or-middle [] ys v = refl
get_or-middle (x ∷ xs) ys v = get_or-middle xs ys v

-- What the first loop leaves: the words behind those seen, and the rounds over them.
abbrev Loaded : ℕ → ℕ → List ℕ → List ℕ → Words → Bytes → Bytes → Type 0
Loaded left i seen blank s block rest =
    (load_loop left i (seen ++ blank) s (block ++ rest)
      ≡ some (seen ++ words_of block, fips_rounds i (words_of block) s, rest))
    × ((fips_rounds i (words_of block) s).e < 2 ^ 32)

-- One round of the first loop, with the word `x` of the next four bytes.
module _ (left i : ℕ) (seen blank : List ℕ) (s : Words) (y a b c d : ℕ) (block rest : Bytes)
    (hi : length seen ≡ i) (he : s.e < 2 ^ 32) (ha : a < 256) (hb : b < 256) (hc : c < 256)
    (hd : d < 256) where
  load_step :
      Loaded left
        (i + 1)
        (seen ++ word_of a b c d ∷ [])
        blank
        (fips_round i (word_of a b c d) s)
        block
        rest
      → Loaded (suc left) i seen (y ∷ blank) s (a ∷ b ∷ c ∷ d ∷ block) rest
  unfolding load_loop words_of fips_rounds
  load_step (found, bound) =
      let x : ℕ = word_of a b c d in
      let w : List ℕ = (seen ++ x ∷ []) ++ blank in
      let placed : set (seen ++ y ∷ blank) i x ≡ w = rw (← hi) (set-append seen blank y x) in
      let at : get_or w i 0 ≡ x = rw (← hi) (get_or-middle seen blank x) in
      (
        rw (word-word_of a b c d ha hb hc hd, placed, load_round-fips_round i x w s he at, found)
            (ap
              (λ (t : List ℕ).
                some (t, fips_rounds (i + 1) (words_of block) (fips_round i x s), rest))
              (append_assoc seen (x ∷ []) (words_of block))),
        bound,
      )

load_loop-words_of :
    (left i : ℕ) (seen blank : List ℕ) (s : Words) (block rest : Bytes)
    → s.e < 2 ^ 32
    → length seen ≡ i
    → length blank ≡ left
    → length block ≡ 4 * left
    → AreBytes block
    → Loaded left i seen blank s block rest
unfolding load_loop words_of fips_rounds
load_loop-words_of zero i seen [] s [] rest he hi hb hl bytes = (rw append-nil, he)
load_loop-words_of zero i seen (y ∷ blank) s block rest he hi hb hl bytes = absurd (omega arith)
load_loop-words_of (suc left) i seen [] s block rest he hi hb hl bytes = absurd (omega arith)
load_loop-words_of (suc left) i seen (y ∷ blank) s (a ∷ b ∷ c ∷ d ∷ block) rest he hi hb hl bytes =
    let x : ℕ = word_of a b c d in
    load_step left i seen blank s y a b c d block rest hi he bytes.0 bytes.1.0 bytes.1.1.0
      bytes.1.1.1.0
      (load_loop-words_of left (i + 1) (seen ++ x ∷ []) blank (fips_round i x s) block rest
        (fips_round-lt i x s) (omega (arith, length-append seen (x ∷ []))) (omega arith)
        (omega arith) bytes.1.1.1.1)
load_loop-words_of left i seen blank s block rest he hi hb hl bytes = absurd (omega arith)

length-words_of : (n : ℕ) (block : Bytes) → length block ≡ 4 * n → length (words_of block) ≡ n
unfolding words_of
length-words_of zero [] h = refl
length-words_of (suc n) (a ∷ b ∷ c ∷ d ∷ block) h =
    omega (arith, length-words_of n block (omega arith))
length-words_of n block h = absurd (omega arith)

fips_rounds-append :
    (t : ℕ) (xs ys : List ℕ) (s : Words)
    → fips_rounds t (xs ++ ys) s ≡ fips_rounds (t + length xs) ys (fips_rounds t xs s)
unfolding fips_rounds
fips_rounds-append t [] ys s =
    let e : t ≡ t + 0 = omega arith in ap (λ (k : ℕ). fips_rounds k ys s) e
fips_rounds-append t (x ∷ xs) ys s =
    let e : t + 1 + length xs ≡ t + suc (length xs) = omega arith in
    fips_rounds-append (t + 1) xs ys (fips_round t x s)
    ∙ ap (λ (k : ℕ). fips_rounds k ys (fips_rounds (t + 1) xs (fips_round t x s))) e

pub first-Ring : (m : List ℕ) → length m ≡ 16 → Ring 16 m m
first-Ring m e = record {
  at = e;
  width = e;
  filled = omega arith;
  holds =
      λ j below recent. let same : j % 16 ≡ j = omega arith in ap (λ (k : ℕ). get_or m k 0) same;
}

-- One block of data is consumed, and the hash is that of the standard.
compress-fips_block :
    (hash : Words) (block rest : Bytes)
    → hash.e < 2 ^ 32
    → length block ≡ 64
    → AreBytes block
    → compress hash (block ++ rest) ≡ some (fips_block hash block, rest)
unfolding compress fips_block
compress-fips_block hash block rest he hl bytes =
    let m : List ℕ = words_of block in
    let width = length-words_of 16 block hl in
    let (loaded, bound) =
      load_loop-words_of 16 0 [] (replicate 16 0) hash block rest he refl refl hl bytes in
    let later : ring_loop 48 16 m (fips_rounds 0 m hash)
        ≡ fips_rounds 0 (m ++ fips_extend 48 m) hash =
      ring_loop-fips_rounds 48 16 m m (fips_rounds 0 m hash) bound (first-Ring m width)
      ∙ sym (
          fips_rounds-append 0 m (fips_extend 48 m) hash
          ∙ ap (λ (k : ℕ). fips_rounds k (fips_extend 48 m) (fips_rounds 0 m hash))
              (let e : 0 + length m ≡ 16 = omega (arith, width) in e)) in
    rw (loaded, later)

pub All-take : (n : ℕ) (xs : Bytes) → AreBytes xs → AreBytes (take n xs)
All-take zero xs h = tt
All-take (suc n) [] h = tt
All-take (suc n) (x ∷ xs) h = (h.0, All-take n xs h.1)

pub All-drop : (n : ℕ) (xs : Bytes) → AreBytes xs → AreBytes (drop n xs)
All-drop zero xs h = h
All-drop (suc n) [] h = tt
All-drop (suc n) (x ∷ xs) h = All-drop n xs h.1

fips_block-lt : (hash : Words) (block : Bytes) → (fips_block hash block).e < 2 ^ 32
unfolding fips_block add_words
fips_block-lt hash block = omega arith

pub fips_blocks-lt :
    (n : ℕ) (hash : Words) (message : Bytes)
    → hash.e < 2 ^ 32
    → (fips_blocks n hash message).e < 2 ^ 32
unfolding fips_blocks
fips_blocks-lt zero hash message h = h
fips_blocks-lt (suc n) hash message h =
    fips_blocks-lt n (fips_block hash (take 64 message)) (drop 64 message)
      (fips_block-lt hash (take 64 message))

stream_loop-fips_blocks :
    (n : ℕ) (hash : Words) (message : Bytes)
    → hash.e < 2 ^ 32
    → 64 * n ≤ length message
    → AreBytes message
    → stream_loop n hash message ≡ some (fips_blocks n hash message)
unfolding stream_loop fips_blocks
stream_loop-fips_blocks zero hash message he fits bytes = refl
stream_loop-fips_blocks (suc n) hash message he fits bytes =
    let block : Bytes = take 64 message in
    let rest : Bytes = drop 64 message in
    let step : compress hash message ≡ some (fips_block hash block, rest) =
      ap (compress hash) (sym (take-append-drop 64 message))
      ∙ compress-fips_block hash block rest he (length-take 64 message (omega arith))
          (All-take 64 message bytes) in
    rw step (
      stream_loop-fips_blocks n (fips_block hash block) rest (fips_block-lt hash block)
        (omega (arith, length-drop 64 message)) (All-drop 64 message bytes))

-- On data of at least `size` bytes, from a hash whose fifth word fits 32 bits, `sha256_stream` returns
-- the hash of the standard over the whole blocks of the first `size` bytes.
pub sha256_stream-fips_blocks :
    (hash : Words) (message : Bytes) (size : ℕ)
    → hash.e < 2 ^ 32
    → size ≤ length message
    → AreBytes message
    → sha256_stream hash message size ≡ some (fips_blocks (size / 64) hash message)
unfolding sha256_stream
sha256_stream-fips_blocks hash message size he fits bytes =
    stream_loop-fips_blocks (size / 64) hash message he (omega arith) bytes
