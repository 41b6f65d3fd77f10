-- ===== src/Common/Bits.antt =====
-- Laws of the bit operations. The native ones recur on binary digits under a count; here each gets
-- one equation for its lowest digit, and the laws at every width follow by induction on the width.
use Prim.Native.Nat.{ℕ, zero, suc, ◌+◌, ◌-◌, ◌*◌, ◌/◌, ◌%◌, ◌^◌, ◌≤◌, ◌<◌, min, max}
use Prim.Native.Nat.{bit_and, bit_or, bit_xor, digits, bitwise, differ}
use Prim.Native.Nat.{bit_and-bitwise, bit_or-bitwise, bit_xor-bitwise}
use mathlib.Core.Path.{◌≡◌, refl, ap, ◌∙◌}
use native.Mathlib.Nat.{
  pow-suc, one-le-pow, mod-add-div', mod-lt, mod-eq_of_lt, add-mul-mod_self_right,
  div-div-eq-div-mul,
}
use native.Mathlib.Omega.{arith}

module _ (z : ℕ → ℕ) (f : ℕ → ℕ → ℕ) where
  -- Every count that is large enough gives the same digits.
  count_irrelevant : (a b n m : ℕ) → a ≤ n → a ≤ m → digits z f n a b ≡ digits z f m a b
  count_irrelevant zero b zero zero hn hm = refl
  count_irrelevant zero b zero (suc m) hn hm = refl
  count_irrelevant zero b (suc n) zero hn hm = refl
  count_irrelevant zero b (suc n) (suc m) hn hm = refl
  count_irrelevant (suc a) b zero m hn hm = absurd (omega arith)
  count_irrelevant (suc a) b (suc n) zero hn hm = absurd (omega arith)
  count_irrelevant (suc a) b (suc n) (suc m) hn hm =
      let halves = count_irrelevant (suc a / 2) (b / 2) n m (omega arith) (omega arith) in
      ap (λ (t : ℕ). t * 2 + f (suc a % 2) (b % 2)) halves

  bitwise_halves :
      (a b : ℕ)
      → bitwise z f (suc a) b ≡ bitwise z f (suc a / 2) (b / 2) * 2 + f (suc a % 2) (b % 2)
  bitwise_halves a b =
      let halves = count_irrelevant (suc a / 2) (b / 2) a (suc a / 2) (omega arith) (omega arith) in
      ap (λ (t : ℕ). t * 2 + f (suc a % 2) (b % 2)) halves

-- The lowest digit of each operation, and the digits above it.
pub bit_and_halves : (a b : ℕ) → bit_and a b ≡ bit_and (a / 2) (b / 2) * 2 + min (a % 2) (b % 2)
bit_and_halves zero b = simp bit_and-bitwise (omega arith)
bit_and_halves (suc a) b = simp bit_and-bitwise (bitwise_halves (λ y. 0) min a b)

pub bit_or_halves : (a b : ℕ) → bit_or a b ≡ bit_or (a / 2) (b / 2) * 2 + max (a % 2) (b % 2)
bit_or_halves zero b = simp bit_or-bitwise (omega arith)
bit_or_halves (suc a) b = simp bit_or-bitwise (bitwise_halves (λ y. y) max a b)

pub bit_xor_halves : (a b : ℕ) → bit_xor a b ≡ bit_xor (a / 2) (b / 2) * 2 + differ (a % 2) (b % 2)
bit_xor_halves zero b = simp bit_xor-bitwise (omega arith)
bit_xor_halves (suc a) b = simp bit_xor-bitwise (bitwise_halves (λ y. y) differ a b)

-- Results fit the width of the operands.
pub bit_or-lt : (k a b : ℕ) → a < 2 ^ k → b < 2 ^ k → bit_or a b < 2 ^ k
bit_or-lt zero a b ha hb = let e : a ≡ 0 = omega arith in rw e (simp bit_or-bitwise hb)
bit_or-lt (suc k) a b ha hb = omega (
  arith,
  bit_or_halves a b,
  pow-suc 2 k,
  bit_or-lt k (a / 2) (b / 2) (omega (arith, pow-suc 2 k)) (omega (arith, pow-suc 2 k)),
)

pub bit_and-lt : (k a b : ℕ) → a < 2 ^ k → bit_and a b < 2 ^ k
bit_and-lt zero a b ha = let e : a ≡ 0 = omega arith in rw e (simp bit_and-bitwise (omega arith))
bit_and-lt (suc k) a b ha = omega (
  arith,
  bit_and_halves a b,
  pow-suc 2 k,
  bit_and-lt k (a / 2) (b / 2) (omega (arith, pow-suc 2 k)),
)

differ-lt : (a b : ℕ) → a < 2 → b < 2 → differ a b < 2
differ-lt zero b ha hb = hb
differ-lt (suc a) zero ha hb = ha
differ-lt (suc zero) (suc zero) ha hb = omega arith
differ-lt (suc zero) (suc (suc b)) ha hb = absurd (omega arith)
differ-lt (suc (suc a)) (suc b) ha hb = absurd (omega arith)

pub bit_xor-lt : (k a b : ℕ) → a < 2 ^ k → b < 2 ^ k → bit_xor a b < 2 ^ k
bit_xor-lt zero a b ha hb = let e : a ≡ 0 = omega arith in rw e (simp bit_xor-bitwise hb)
bit_xor-lt (suc k) a b ha hb = omega (
  arith,
  bit_xor_halves a b,
  differ-lt (a % 2) (b % 2) (omega arith) (omega arith),
  pow-suc 2 k,
  bit_xor-lt k (a / 2) (b / 2) (omega (arith, pow-suc 2 k)) (omega (arith, pow-suc 2 k)),
)

-- Operands with no common digit: or and xor are both the sum.
disjoint_digits : (a b : ℕ) → a < 2 → b < 2 → min a b ≡ 0 → (max a b ≡ a + b) × (differ a b ≡ a + b)
disjoint_digits zero b ha hb h = (omega arith, omega arith)
disjoint_digits (suc a) zero ha hb h = (omega arith, omega arith)
disjoint_digits (suc a) (suc b) ha hb h = absurd (omega arith)

pub disjoint_sum :
    (k a b : ℕ) → a < 2 ^ k → bit_and a b ≡ 0 → (bit_or a b ≡ a + b) × (bit_xor a b ≡ a + b)
disjoint_sum zero a b ha h =
    let e : a ≡ 0 = omega arith in
    (rw e (simp bit_or-bitwise (omega arith)), rw e (simp bit_xor-bitwise (omega arith)))
disjoint_sum (suc k) a b ha h =
    let ih =
      disjoint_sum k (a / 2) (b / 2) (omega (arith, pow-suc 2 k))
        (omega (arith, bit_and_halves a b)) in
    let lows =
      disjoint_digits (a % 2) (b % 2) (omega arith) (omega arith)
        (omega (arith, bit_and_halves a b)) in
    (
      omega (arith, bit_or_halves a b, ih.0, lows.0),
      omega (arith, bit_xor_halves a b, ih.1, lows.1),
    )

pub bit_and-zero : (k a : ℕ) → a < 2 ^ k → bit_and a 0 ≡ 0
bit_and-zero zero a h = let e : a ≡ 0 = omega arith in rw e (simp bit_and-bitwise (omega arith))
bit_and-zero (suc k) a h =
    omega (arith, bit_and_halves a 0, bit_and-zero k (a / 2) (omega (arith, pow-suc 2 k)))

double : (q k : ℕ) → q * 2 ^ suc k ≡ 2 * (q * 2 ^ k)
double q k = omega (arith, ap (λ (t : ℕ). q * t) (pow-suc 2 k))

low_field_disjoint : (k r q : ℕ) → r < 2 ^ k → bit_and r (q * 2 ^ k) ≡ 0
low_field_disjoint zero r q h =
    let e : r ≡ 0 = omega arith in rw e (simp bit_and-bitwise (omega arith))
low_field_disjoint (suc k) r q h =
    let half : q * 2 ^ suc k / 2 ≡ q * 2 ^ k = omega (arith, double q k) in
    let ih = low_field_disjoint k (r / 2) q (omega (arith, pow-suc 2 k)) in
    let step = bit_and_halves r (q * 2 ^ suc k) in
    let even : q * 2 ^ suc k % 2 ≡ 0 = omega (arith, double q k) in
    omega (arith, rw (half, even) at step, ih)

-- A field below `2 ^ k` beside a field shifted by `k`.
pub bit_or_fields : (k r q : ℕ) → r < 2 ^ k → bit_or r (q * 2 ^ k) ≡ r + q * 2 ^ k
bit_or_fields k r q h = (disjoint_sum k r (q * 2 ^ k) h (low_field_disjoint k r q h)).0

pub bit_or_comm : (k a b : ℕ) → a < 2 ^ k → b < 2 ^ k → bit_or a b ≡ bit_or b a
bit_or_comm zero a b ha hb = let e : a ≡ b = omega arith in rw e
bit_or_comm (suc k) a b ha hb = omega (
  arith,
  bit_or_halves a b,
  bit_or_halves b a,
  bit_or_comm k (a / 2) (b / 2) (omega (arith, pow-suc 2 k)) (omega (arith, pow-suc 2 k)),
)

lt-two-pow : (n : ℕ) → n < 2 ^ n
lt-two-pow zero = omega arith
lt-two-pow (suc n) = omega (arith, pow-suc 2 n, lt-two-pow n)

mod_double : (a b : ℕ) → 0 < b → a % (b * 2) ≡ a / 2 % b * 2 + a % 2
mod_double a b h =
    let low : ℕ = a / 2 % b * 2 + a % 2 in
    let high : ℕ = a / 2 / b in
    let split : a ≡ low + high * (b * 2) = omega (arith, mod-add-div' (a / 2) b) in
    let below : low < b * 2 = omega (arith, mod-lt (a / 2) h) in
    ap (λ (t : ℕ). t % (b * 2)) split ∙ add-mul-mod_self_right low high (b * 2) ∙ mod-eq_of_lt below

-- A mask of the `k` lowest digits takes the remainder.
pub bit_and_mask : (k a : ℕ) → bit_and a (2 ^ k - 1) ≡ a % 2 ^ k
bit_and_mask zero a = bit_and-zero a a (lt-two-pow a) ∙ omega arith
bit_and_mask (suc k) a =
    let pos = one-le-pow k 2 (omega arith) in
    let half : (2 ^ suc k - 1) / 2 ≡ 2 ^ k - 1 = omega (arith, pow-suc 2 k) in
    let odd : (2 ^ suc k - 1) % 2 ≡ 1 = omega (arith, pow-suc 2 k) in
    let step = bit_and_halves a (2 ^ suc k - 1) in
    omega (
      arith,
      rw (half, odd) at step,
      bit_and_mask k (a / 2),
      mod_double a (2 ^ k) pos,
      ap (λ (t : ℕ). a % t) (pow-suc 2 k),
    )

-- A mask that is shifted up by `k` selects a field above the `k` lowest digits.
pub bit_and_shifted : (k a m : ℕ) → bit_and a (m * 2 ^ k) ≡ bit_and (a / 2 ^ k) m * 2 ^ k
bit_and_shifted zero a m =
    let e : m * 1 ≡ m = omega arith in let d : a / 1 ≡ a = omega arith in rw (e, d) (omega arith)
bit_and_shifted (suc k) a m =
    let half : m * 2 ^ suc k / 2 ≡ m * 2 ^ k = omega (arith, double m k) in
    let even : m * 2 ^ suc k % 2 ≡ 0 = omega (arith, double m k) in
    let above : a / 2 / 2 ^ k ≡ a / 2 ^ suc k =
      div-div-eq-div-mul a 2 (2 ^ k) ∙ ap (λ (t : ℕ). a / t) (omega (arith, pow-suc 2 k)) in
    let step = bit_and_halves a (m * 2 ^ suc k) in
    let ih = bit_and_shifted k (a / 2) m in
    omega (arith, rw (half, even) at step, rw above at ih, double (bit_and (a / 2 ^ suc k) m) k)

-- The field of `w` digits above the `k` lowest.
pub bit_and_field : (k w a : ℕ) → bit_and a ((2 ^ w - 1) * 2 ^ k) ≡ a / 2 ^ k % 2 ^ w * 2 ^ k
bit_and_field k w a =
    bit_and_shifted k a (2 ^ w - 1) ∙ ap (λ (t : ℕ). t * 2 ^ k) (bit_and_mask w (a / 2 ^ k))

-- A high field beside a low one, both within the width `w`.
pub bit_or_high :
    (w k q r : ℕ) → q * 2 ^ k < 2 ^ w → r < 2 ^ k → r < 2 ^ w → bit_or (q * 2 ^ k) r ≡ q * 2 ^ k + r
bit_or_high w k q r hq hr hw =
    omega (arith, bit_or_comm w (q * 2 ^ k) r hq hw, bit_or_fields k r q hr)
