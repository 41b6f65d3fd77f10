-- ===== src/Text/Url.antt =====
-- lib/src/url_utility.cpp: percent encoding, and the case of letters, in the C locale. A `char` is its
-- byte.
pub mod Decode
use s3client.Common.{
  ℕ, zero, suc, ◌+◌, ◌-◌, ◌/◌, ◌%◌, List, [], ◌∷◌, ◌++◌, Bytes, Option, none, some, Bool, true,
  false, ◌&&◌, ◌||◌, leb, ltb, ◌==◌, if◌then◌else◌, codes,
}
use s3client.Common.Dict.{Dict}

unfoldable pub is_digit : ℕ → Bool
is_digit c = leb 48 c && leb c 57

unfoldable pub is_upper : ℕ → Bool
is_upper c = leb 65 c && leb c 90

unfoldable pub is_lower : ℕ → Bool
is_lower c = leb 97 c && leb c 122

-- The bytes that are kept: letters, digits and -_.~.
pub is_kept : ℕ → Bool
is_kept c = is_digit c || is_upper c || is_lower c || c == 45 || c == 95 || c == 46 || c == 126

-- A digit in the base 16, in capitals.
pub hex_capital : ℕ → ℕ
hex_capital n = if ltb n 10 then 48 + n else 65 + (n - 10)

pub url_encode : Bytes → Bytes
url_encode [] = []
url_encode (c ∷ s) =
    let rest = url_encode s in
    if is_kept c then c ∷ rest else 37 ∷ hex_capital (c / 16) ∷ hex_capital (c % 16) ∷ rest

-- The text before its last byte is cut off.
pub url_pairs : Dict Bytes → Bytes
url_pairs [] = []
url_pairs ((k, v) ∷ p) = url_encode k ++ (codes "=" ++ (url_encode v ++ (codes "&" ++ url_pairs p)))

unfoldable pub drop_last : Bytes → Bytes
drop_last [] = []
drop_last (c ∷ []) = []
drop_last (c ∷ d ∷ s) = c ∷ drop_last (d ∷ s)

-- `UrlEncode` of a map; on an empty map the end of an empty text is decremented, which is `none`.
pub url_encode_map : Dict Bytes → Option Bytes
url_encode_map [] = none
url_encode_map (p ∷ ps) = some (drop_last (url_pairs (p ∷ ps)))

unfoldable pub to_upper : Bytes → Bytes
to_upper [] = []
to_upper (c ∷ s) = (if is_lower c then c - 32 else c) ∷ to_upper s

unfoldable pub to_lower : Bytes → Bytes
to_lower [] = []
to_lower (c ∷ s) = (if is_upper c then c + 32 else c) ∷ to_lower s
