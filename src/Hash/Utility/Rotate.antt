-- ===== src/Hash/Utility/Rotate.antt =====
-- `right_rotate` and `left_rotate` of lib/hash/utility.h in closed form; each undoes the other.
use native.Mathlib.Nat.{
  pow-suc, mod-add-div', mod-lt, one-le-pow, add-mul-mod_self_right, mod-eq_of_lt,
  add-mul-div_right, div-eq_of_lt, pow-le-pow_right, div-lt_iff_lt-mul,
}
use s3client.Common.Bits.{bit_or_fields, bit_or_high}
use s3client.Hash.Utility.{right_rotate, left_rotate}
use s3client.Common.{ℕ, zero, suc, ◌+◌, ◌-◌, ◌*◌, ◌/◌, ◌%◌, ◌^◌, ◌≤◌, ◌<◌, ◌≡◌, sym, ap, arith, ◌∙◌}

pow_add : (a b : ℕ) → 2 ^ (a + b) ≡ 2 ^ a * 2 ^ b
pow_add a zero = let e : a + 0 ≡ a = omega arith in rw e (omega arith)
pow_add a (suc b) =
    let e : a + suc b ≡ suc (a + b) = omega arith in
    rw e (omega (arith, pow-suc 2 (a + b), pow_add a b, ap (λ (t : ℕ). 2 ^ a * t) (pow-suc 2 b)))

-- `x` is cut into a high part and a low part of `n` digits, and the parts change places.
module _ (P Q q r : ℕ) (hq : q < Q) (hr : r < P) where
  pos_product : r * Q < P * Q
  pos_product = grind arith

  parts_lt : q * P + r < P * Q
  parts_lt = grind arith

  shifted : (q * P + r) * Q % (P * Q) ≡ r * Q
  shifted =
      let split : (q * P + r) * Q ≡ r * Q + q * (P * Q) = grind arith in
      ap (λ (t : ℕ). t % (P * Q)) split
      ∙ add-mul-mod_self_right (r * Q) q (P * Q)
      ∙ mod-eq_of_lt pos_product

  high_part : (q * P + r) / P ≡ q
  high_part =
      let swap : q * P + r ≡ r + q * P = omega arith in
      ap (λ (t : ℕ). t / P) swap
      ∙ add-mul-div_right r q (omega arith)
      ∙ omega (arith, div-eq_of_lt hr)

two_powers : (n : ℕ) → n ≤ 32 → 2 ^ n * 2 ^ (32 - n) ≡ 2 ^ 32
two_powers n h =
    let e : n + (32 - n) ≡ 32 = omega arith in sym (pow_add n (32 - n)) ∙ ap (λ (t : ℕ). 2 ^ t) e

-- A rotation to the right by `n` puts the `n` low digits above the others.
right_rotate_parts :
    (n q r : ℕ)
    → n ≤ 32
    → q < 2 ^ (32 - n)
    → r < 2 ^ n
    → right_rotate (q * 2 ^ n + r) n ≡ q + r * 2 ^ (32 - n)
unfolding right_rotate
right_rotate_parts n q r hn hq hr =
    let whole = two_powers n hn in
    let low = high_part (2 ^ n) (2 ^ (32 - n)) q r hq hr in
    let up = shifted (2 ^ n) (2 ^ (32 - n)) q r hq hr in
    rw (low, rw whole at up) (bit_or_fields (32 - n) q r hq)

left_rotate_parts :
    (n q r : ℕ)
    → n ≤ 32
    → q < 2 ^ n
    → r < 2 ^ (32 - n)
    → left_rotate (q * 2 ^ (32 - n) + r) n ≡ q + r * 2 ^ n
unfolding left_rotate
left_rotate_parts n q r hn hq hr =
    let whole : 2 ^ (32 - n) * 2 ^ n ≡ 2 ^ 32 = omega (arith, two_powers n hn) in
    let low = high_part (2 ^ (32 - n)) (2 ^ n) q r hq hr in
    let up = shifted (2 ^ (32 - n)) (2 ^ n) q r hq hr in
    let below : q < 2 ^ 32 = omega (arith, pow-le-pow_right {n = 2} (omega arith) hn) in
    let product = pos_product (2 ^ (32 - n)) (2 ^ n) q r hq hr in
    let fits : r * 2 ^ n < 2 ^ 32 = omega (arith, product, whole) in
    rw (low, rw whole at up) (omega (arith, bit_or_high 32 n r q fits hq below))

-- The two parts of a word at a rotation by `n`.
module _ (n x : ℕ) (hn : n ≤ 32) (hx : x < 2 ^ 32) where
  word_parts :
      (x / 2 ^ n * 2 ^ n + x % 2 ^ n ≡ x) × (x / 2 ^ n < 2 ^ (32 - n)) × (x % 2 ^ n < 2 ^ n)
  word_parts =
      let pos = one-le-pow n 2 (omega arith) in
      let below : x < 2 ^ (32 - n) * 2 ^ n = omega (arith, two_powers n hn) in
      (omega (arith, mod-add-div' x (2 ^ n)), (div-lt_iff_lt-mul pos).1 below, mod-lt x pos)

  right_rotate-eq : right_rotate x n ≡ x / 2 ^ n + x % 2 ^ n * 2 ^ (32 - n)
  right_rotate-eq =
      let (split, hq, hr) = word_parts in
      ap (λ (t : ℕ). right_rotate t n) (sym split)
      ∙ right_rotate_parts n (x / 2 ^ n) (x % 2 ^ n) hn hq hr

  left_rotate-right_rotate_parts : left_rotate (right_rotate x n) n ≡ x
  left_rotate-right_rotate_parts =
      let (split, hq, hr) = word_parts in
      let swap : right_rotate x n ≡ x % 2 ^ n * 2 ^ (32 - n) + x / 2 ^ n =
        omega (arith, right_rotate-eq) in
      ap (λ (t : ℕ). left_rotate t n) swap
      ∙ left_rotate_parts n (x % 2 ^ n) (x / 2 ^ n) hn hr hq
      ∙ omega (arith, split)

-- On a word of 32 bits, for a shift count from 1 to 31, a right rotation moves the `n` low digits to the top and the rest
-- down, and the left rotation by the same count undoes it.
pub left_rotate-right_rotate :
    (n x : ℕ)
    → 0 < n
    → n < 32
    → x < 2 ^ 32
    → (right_rotate x n ≡ x / 2 ^ n + x % 2 ^ n * 2 ^ (32 - n))
      × (left_rotate (right_rotate x n) n ≡ x)
left_rotate-right_rotate n x pos hn hx =
    (right_rotate-eq n x (omega arith) hx, left_rotate-right_rotate_parts n x (omega arith) hx)
