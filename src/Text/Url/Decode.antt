-- ===== src/Text/Url/Decode.antt =====
-- Percent encoding loses nothing: a decoder, after RFC 3986, and its round trip.
use s3client.Common.{
  ℕ, ◌+◌, ◌-◌, ◌*◌, ◌/◌, ◌%◌, ◌<◌, [], ◌∷◌, Bytes, Option, none, some, true, false, ltb, ◌==◌,
  if◌then◌else◌, ◌≡◌, refl, arith, Bool-cases, inl, inr, All,
}
use s3client.Text.Url.{is_digit, is_upper, is_lower, is_kept, hex_capital, url_encode}

-- The value of a digit in capitals.
unfoldable pub hex_value : ℕ → ℕ
hex_value c = if ltb c 65 then c - 48 else c - 55

unfoldable pub prepend : ℕ → Option Bytes → Option Bytes
prepend c none = none
prepend c (some s) = some (c ∷ s)

-- `%` and two digits are a byte, any other byte is itself.
unfoldable pub url_decode : Bytes → Option Bytes
url_decode [] = some []
url_decode (c ∷ []) = if c == 37 then none else some (c ∷ [])
url_decode (c ∷ d ∷ []) = if c == 37 then none else prepend c (url_decode (d ∷ []))
url_decode (c ∷ d ∷ e ∷ s) = elim (c == 37) [
  | true ↦ prepend (hex_value d * 16 + hex_value e) (url_decode s)
  | false ↦ prepend c (url_decode (d ∷ e ∷ s))
]

kept_not_percent : (c : ℕ) → is_kept c ≡ true → (c == 37) ≡ false
unfolding is_kept is_digit is_upper is_lower
kept_not_percent c h = ground arith

hex_value-hex_capital : (n : ℕ) → n < 16 → hex_value (hex_capital n) ≡ n
unfolding hex_value hex_capital
hex_value-hex_capital n h = ground arith

-- A byte that is not an escape is read as itself.
decode_plain :
    (c : ℕ) (s : Bytes) → (c == 37) ≡ false → url_decode (c ∷ s) ≡ prepend c (url_decode s)
unfolding url_decode prepend
decode_plain c [] h = rw h refl
decode_plain c (d ∷ []) h = rw h refl
decode_plain c (d ∷ e ∷ s) h = rw (url_decode, h) refl

-- The decoder reads back every text of bytes that `UrlEncode` writes.
pub url_decode-url_encode : (s : Bytes) → All (λ c. c < 256) s → url_decode (url_encode s) ≡ some s
unfolding url_encode url_decode prepend
url_decode-url_encode [] h = refl
url_decode-url_encode (c ∷ s) (hc, h) = elim (Bool-cases (is_kept c)) [
  | inl e ↦
      rw (e, decode_plain c (url_encode s) (kept_not_percent c e), url_decode-url_encode s h) refl
  | inr e ↦
      rw
        (
          e,
          hex_value-hex_capital (c / 16) (omega arith),
          hex_value-hex_capital (c % 16) (omega arith),
          url_decode-url_encode s h,
        )
        (ground arith)
]
