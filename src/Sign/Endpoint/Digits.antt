-- ===== src/Sign/Endpoint/Digits.antt =====
-- Decimal digits, as `to_string` writes and `stoul` reads them.
use s3client.Common.{
  ℕ, zero, suc, ◌+◌, ◌-◌, ◌*◌, ◌/◌, ◌%◌, ◌^◌, ◌<◌, [], ◌∷◌, ◌++◌, Bytes, some, true, false, ◌==◌,
  ◌||◌, ◌&&◌, ltb, leb, All, All-append, ◌≡◌, refl, ap, ◌∙◌, arith, Bool-cases,
}
use mathlib.Core.Logic.{inl, inr}
use s3client.Hash.Utility.{◌>>=◌}
use s3client.Text.Url.{is_digit}
use s3client.Xml.Path.{skip_spaces, is_space}
use s3client.Xml.Responses.{stoul, digits_value}
use s3client.Sign.{ℤ, is_empty, decimal_digits, to_string}
use s3client.Sign.Endpoint.{to_int}

unfoldable pub IsNumber : Bytes → Type 0
IsNumber = All (λ c. is_digit c ≡ true)

digit_letter : (r : ℕ) → r < 10 → is_digit (48 + r) ≡ true
unfolding is_digit
digit_letter r h = ground arith

digits-IsNumber : (fuel n : ℕ) → IsNumber (decimal_digits fuel n)
unfolding IsNumber decimal_digits
digits-IsNumber zero n = tt
digits-IsNumber (suc fuel) n = elim (Bool-cases (ltb n 10)) [
  | inl e ↦ rw (decimal_digits, e) (digit_letter n (ground arith), tt)
  | inr e ↦
      let below : n % 10 < 10 = omega arith in
      rw (decimal_digits, e)
        (All-append _ (decimal_digits fuel (n / 10)) ((48 + n % 10) ∷ [])
          (digits-IsNumber fuel (n / 10)) (digit_letter (n % 10) below, tt))
]

one_digit :
    (a r : ℕ) → r < 10 → a * 10 + r < 2 ^ 64 → digits_value a ((48 + r) ∷ []) ≡ some (a * 10 + r)
unfolding digits_value
one_digit a r h k =
    let value : 48 + r - 48 ≡ r = omega arith in
    let below : ltb (a * 10 + r) (2 ^ 64) ≡ true = ground arith in
    rw (digits_value, digit_letter r h, value, below) refl

digits_value-append :
    (a : ℕ) (s : Bytes) (c : ℕ)
    → IsNumber s
    → digits_value a (s ++ c ∷ []) ≡ digits_value a s >>= λ v. digits_value v (c ∷ [])
unfolding digits_value IsNumber
digits_value-append a [] c h = refl
digits_value-append a (d ∷ s) c (h, hs) = elim (Bool-cases (ltb (a * 10 + (d - 48)) (2 ^ 64))) [
  | inl e ↦ rw (digits_value, h, e) (digits_value-append (a * 10 + (d - 48)) s c hs)
  | inr e ↦ rw (digits_value, h, e) refl
]

digits_value-decimal :
    (fuel n : ℕ) → n < fuel → n < 2 ^ 64 → digits_value 0 (decimal_digits fuel n) ≡ some n
unfolding decimal_digits
digits_value-decimal zero n h k = absurd (omega arith)
digits_value-decimal (suc fuel) n h k = elim (Bool-cases (ltb n 10)) [
  | inl e ↦
      rw (decimal_digits, e) (one_digit 0 n (ground arith) (omega arith) ∙ ap some (omega arith))
  | inr e ↦
      let small : n / 10 < fuel = ground arith in
      let whole : n / 10 * 10 + n % 10 ≡ n = omega arith in
      rw
        (
          decimal_digits,
          e,
          digits_value-append 0 (decimal_digits fuel (n / 10)) (48 + n % 10)
              (digits-IsNumber fuel (n / 10)),
          digits_value-decimal fuel (n / 10) small (omega arith),
        )
        (one_digit (n / 10) (n % 10) (omega arith) (omega arith) ∙ ap some whole)
]

digits_start : (fuel n : ℕ) → is_empty (decimal_digits (suc fuel) n) ≡ false
unfolding decimal_digits is_empty
digits_start fuel n = elim (Bool-cases (ltb n 10)) [
  | inl e ↦ rw (decimal_digits, e) refl
  | inr e ↦ rw (decimal_digits, e) (some_last (decimal_digits fuel (n / 10)) (48 + n % 10))
]
  where
    some_last : (s : Bytes) (c : ℕ) → is_empty (s ++ c ∷ []) ≡ false
    some_last [] c = refl
    some_last (d ∷ s) c = refl

stoul-IsNumber : (d : Bytes) → is_empty d ≡ false → IsNumber d → stoul d ≡ digits_value 0 d
unfolding stoul is_empty IsNumber skip_spaces is_space is_digit
stoul-IsNumber [] e h = absurd (cc e)
stoul-IsNumber (c ∷ d) e (h, hs) =
    let shown : (c == 32 || leb 9 c && leb c 13) ≡ false = ground arith in
    rw (stoul, skip_spaces, shown, h) refl

pub to_int-pos : (n : ℕ) → n < 2 ^ 31 → to_int n ≡ ℤ.pos n
unfolding to_int
to_int-pos n h =
    let whole : n % 2 ^ 32 ≡ n = omega arith in
    let below : ltb n (2 ^ 31) ≡ true = ground arith in rw (whole, below) refl

-- The digits of a number.
pub port_text :
    (n : ℕ)
    → n < 2 ^ 31
    → (is_empty (to_string (ℤ.pos n)) ≡ false)
      × IsNumber (to_string (ℤ.pos n))
      × (stoul (to_string (ℤ.pos n)) ≡ some n)
unfolding to_string
port_text n h =
    let one_more : n + 1 ≡ suc n = omega arith in
    let number : IsNumber (decimal_digits (n + 1) n) = digits-IsNumber (n + 1) n in
    let begun : is_empty (decimal_digits (n + 1) n) ≡ false = rw one_more (digits_start n n) in
    (
      begun,
      number,
      stoul-IsNumber (decimal_digits (n + 1) n) begun number
          ∙ digits_value-decimal (n + 1) n (omega arith) (omega arith),
    )
