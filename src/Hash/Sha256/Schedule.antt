-- ===== src/Hash/Sha256/Schedule.antt =====
-- The ring of 16 words in `sha256_stream` against the message schedule of the standard.
use s3client.Common.{
  ℕ, zero, suc, ◌+◌, ◌-◌, ◌%◌, ◌^◌, ◌≤◌, ◌<◌, bit_and, List, [], ◌∷◌, ◌++◌, length, get_or, set,
  ◌≡◌, refl, sym, ap, ◌∙◌, arith, get_or-set_self, get_or-set_ne, get_or-append_left,
  get_or-append_last, length-append, length-set,
}
use s3client.Common.Word.{◌⊕◌}
use s3client.Common.Bits.{bit_and_mask}
use native.Mathlib.Decide.{dec_lt}
use s3client.Hash.Sha256.{
  Words, extend_ring, ring_round, ring_loop, rotate_variables, round_constants, big_sigma1,
}
use s3client.Hash.Sha256.Reference.{fips_ch, next_word, fips_extend, fips_round, fips_rounds}
use s3client.Hash.Sha256.Bits.{ch-fips_ch}

-- The ring holds the last 16 words of the schedule, word `j` at place `j % 16`.
pub record Ring (i : ℕ) (w ws : List ℕ) : Type 0 where
  pub at : length ws ≡ i
  pub width : length w ≡ 16
  pub filled : 16 ≤ i
  pub holds : (j : ℕ) → j < i → i ≤ j + 16 → get_or w (j % 16) 0 ≡ get_or ws j 0

module _ (i : ℕ) (w ws : List ℕ) (r : Ring i w ws) where
  -- Place `(i + k) % 16` holds the word `k - 16` after the last.
  reads : (k : ℕ) → k < 16 → get_or w (bit_and (i + k) 0x0f) 0 ≡ get_or ws (i - (16 - k)) 0
  reads k h =
      let place : bit_and (i + k) 0x0f ≡ (i - (16 - k)) % 16 =
        omega (arith, bit_and_mask 4 (i + k), r.filled) in
      ap (λ (t : ℕ). get_or w t 0) place
      ∙ r.holds (i - (16 - k)) (omega (arith, r.filled)) (omega arith)

  extended : extend_ring i w ≡ set w (i % 16) (next_word ws)
  unfolding extend_ring next_word
  extended =
      let e0 : get_or w (bit_and i 0xf) 0 ≡ get_or ws (i - 16) 0 =
        let same : i ≡ i + 0 = omega arith in
        rw same (reads 0 (omega arith) ∙ ap (λ (t : ℕ). get_or ws (t - 16) 0) same) in
      let e1 = reads 1 (omega arith) in
      let e9 = reads 9 (omega arith) in
      let e14 = reads 14 (omega arith) in
      let place : bit_and i 0xf ≡ i % 16 = bit_and_mask 4 i in
      rw (e1, e9, e14, e0, place, r.at) (ap (λ (t : ℕ). set w (i % 16) t) (omega arith))

  older : (j : ℕ) → j < i → i + 1 ≤ j + 16 → get_or (extend_ring i w) (j % 16) 0 ≡ get_or ws j 0
  older j below recent = rw extended (
      get_or-set_ne w (i % 16) (j % 16) (next_word ws) 0 (omega arith)
      ∙ r.holds j below (omega arith))

  newest : get_or (extend_ring i w) (i % 16) 0 ≡ next_word ws
  newest = rw extended (get_or-set_self w (i % 16) (next_word ws) 0 (omega (arith, r.width)))

  extend_ring-holds :
      (j : ℕ)
      → j < i + 1
      → i + 1 ≤ j + 16
      → get_or (extend_ring i w) (j % 16) 0 ≡ get_or (ws ++ next_word ws ∷ []) j 0
  extend_ring-holds j below recent = elim (dec_lt j i) [
    | yes p ↦
        older j p recent ∙ sym (get_or-append_left ws (next_word ws ∷ []) j 0 (omega (arith, r.at)))
    | no p ↦
        let last : j ≡ i = omega arith in
        let place : length ws ≡ i = r.at in
        rw last (
          newest
          ∙ sym (get_or-append_last ws (next_word ws) 0)
          ∙ ap (λ (t : ℕ). get_or (ws ++ next_word ws ∷ []) t 0) place)
  ]

  extend_ring-Ring : Ring (i + 1) (extend_ring i w) (ws ++ next_word ws ∷ [])
  extend_ring-Ring = record {
    at = omega (arith, length-append ws (next_word ws ∷ []), r.at);
    width = rw extended (length-set w (i % 16) (next_word ws) ∙ r.width);
    filled = omega (arith, r.filled);
    holds = λ j below recent. extend_ring-holds j below recent;
  }

  last_read : get_or (extend_ring i w) (bit_and i 0xf) 0 ≡ next_word ws
  last_read = rw (bit_and_mask 4 i) newest

regroup : (x h s c k : ℕ) → x ⊕ h ⊕ s ⊕ c ⊕ k ≡ h ⊕ s ⊕ c ⊕ k ⊕ x
regroup x h s c k = omega arith

ring_round-fips_round :
    (i : ℕ) (s : Words) (w : List ℕ) (x : ℕ)
    → s.e < 2 ^ 32
    → get_or w (bit_and i 0xf) 0 ≡ x
    → ring_round i w s ≡ fips_round i x s
unfolding ring_round fips_round rotate_variables
ring_round-fips_round i s w x he e = rw (
  e,
  ch-fips_ch s.e s.f s.g he,
  regroup x s.h (big_sigma1 s.e) (fips_ch s.e s.f s.g) (get_or round_constants i 0),
)

pub fips_round-lt : (t x : ℕ) (s : Words) → (fips_round t x s).e < 2 ^ 32
unfolding fips_round
fips_round-lt t x s = omega arith

-- From a ring that holds the last 16 words of the schedule, and a state whose fifth word fits 32 bits,
-- the second loop does the rounds of the standard on the words that extend the schedule.
pub ring_loop-fips_rounds :
    (left i : ℕ) (w ws : List ℕ) (s : Words)
    → s.e < 2 ^ 32
    → Ring i w ws
    → ring_loop left i w s ≡ fips_rounds i (fips_extend left ws) s
unfolding ring_loop fips_rounds fips_extend
ring_loop-fips_rounds zero i w ws s he r = refl
ring_loop-fips_rounds (suc left) i w ws s he r =
    let w' = extend_ring i w in
    let x = next_word ws in
    rw (ring_round-fips_round i s w' x he (last_read i w ws r)) (
      ring_loop-fips_rounds left (i + 1) w' (ws ++ x ∷ []) (fips_round i x s) (fips_round-lt i x s)
        (extend_ring-Ring i w ws r))
