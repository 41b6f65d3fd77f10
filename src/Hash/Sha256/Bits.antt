-- ===== src/Hash/Sha256/Bits.antt =====
-- The code's Ch joins its halves with `|`, the standard with the exclusive or.
use s3client.Common.{ℕ, zero, suc, ◌-◌, ◌/◌, ◌%◌, ◌^◌, ◌<◌, bit_and, ◌≡◌, sym, ◌∙◌, arith}
use s3client.Common.Word.{not32}
use s3client.Common.Bits.{bit_and_halves, disjoint_sum, bit_and-lt}
use Prim.Native.Nat.{bit_and-bitwise}
use native.Mathlib.Nat.{pow-suc}
use s3client.Hash.Sha256.{ch}
use s3client.Hash.Sha256.Reference.{fips_ch}

-- A word and its complement at width `k` share no digit.
halves_disjoint : (k c x y : ℕ) → c < 2 ^ k → bit_and (bit_and c x) (bit_and (2 ^ k - 1 - c) y) ≡ 0
halves_disjoint zero c x y h =
    let e : c ≡ 0 = omega arith in rw e (simp bit_and-bitwise (omega arith))
halves_disjoint (suc k) c x y h =
    let m : ℕ = 2 ^ suc k - 1 - c in
    let m2 : m / 2 ≡ 2 ^ k - 1 - c / 2 = omega (arith, pow-suc 2 k) in
    let low : m % 2 ≡ 1 - c % 2 = omega (arith, pow-suc 2 k) in
    let a2 : bit_and c x / 2 ≡ bit_and (c / 2) (x / 2) = omega (arith, bit_and_halves c x) in
    let b2 : bit_and m y / 2 ≡ bit_and (m / 2) (y / 2) = omega (arith, bit_and_halves m y) in
    let ih = halves_disjoint k (c / 2) (x / 2) (y / 2) (omega (arith, pow-suc 2 k)) in
    let tops : bit_and (bit_and c x / 2) (bit_and m y / 2) ≡ 0 = rw (a2, b2, m2) ih in
    omega (
      arith,
      bit_and_halves (bit_and c x) (bit_and m y),
      tops,
      bit_and_halves c x,
      bit_and_halves m y,
      low,
    )

-- On a first word of 32 bits, the code's Ch is that of the standard, whatever the other words are.
pub ch-fips_ch : (c x y : ℕ) → c < 2 ^ 32 → ch c x y ≡ fips_ch c x y
unfolding ch fips_ch
ch-fips_ch c x y h =
    let (or, xor) =
      disjoint_sum 32 (bit_and c x) (bit_and (not32 c) y) (bit_and-lt 32 c x h)
        (halves_disjoint 32 c x y h) in
    or ∙ sym xor
