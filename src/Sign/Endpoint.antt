-- ===== src/Sign/Endpoint.antt =====
-- `ParseURL` of lib/src/url_utility.cpp, with its regular expression
-- `\s*(\w+)://([0-9a-zA-Z-_\.]+)(:(\d+))?` written out as functions.
pub mod Digits
pub mod Parsed
mod Examples
use s3client.Common.{
  ℕ, ◌-◌, ◌%◌, ◌^◌, List, [], ◌∷◌, Bytes, Option, none, some, Bool, true, false, ◌==◌, ◌||◌, ltb,
  if◌then◌else◌, codes, length, drop,
}
use s3client.Hash.Utility.{◌>>=◌}
use s3client.Text.Url.{is_digit, is_upper, is_lower}
use s3client.Text.Headers.{run_of, is_word}
use s3client.Xml.Path.{skip_spaces}
use s3client.Xml.Responses.{stoul}
use s3client.Sign.{ℤ, Url, is_empty, is_prefix}

unfoldable pub is_host_letter : ℕ → Bool
is_host_letter c = is_digit c || (is_lower c || (is_upper c || (c == 45 || (c == 95 || c == 46))))

-- `(:(\d+))?`: the digits, none if the group is left out.
unfoldable pub port_digits : Bytes → Bytes
port_digits [] = []
port_digits (c ∷ s) = if c == 58 then run_of is_digit s else []

-- A match that starts at the first byte: the protocol, the host and the digits of the port.
unfoldable pub url_here : Bytes → Option (Bytes × (Bytes × Bytes))
url_here s =
    let t = skip_spaces s in
    let proto = run_of is_word t in
    let rest = drop (length proto) t in
    let r = drop 3 rest in
    let host = run_of is_host_letter r in
    let found = some (proto, (host, port_digits (drop (length host) r))) in
    if is_empty proto
    then none
    else if is_prefix (codes "://") rest
    then (if is_empty host then none else found)
    else none

-- The first match.
unfoldable pub url_match : Bytes → Option (Bytes × (Bytes × Bytes))
url_match [] = none
url_match (c ∷ s) =
    let later = url_match s in elim (url_here (c ∷ s)) [ some m ↦ some m | none ↦ later ]

-- `int(…)`.
unfoldable pub to_int : ℕ → ℤ
to_int n = let m = n % 2 ^ 32 in if ltb m (2 ^ 31) then ℤ.pos m else ℤ.negsuc (2 ^ 32 - 1 - m)

-- `none` is the exception of `stoul`.
unfoldable pub parse_url : Bytes → Option Url
parse_url s = elim (url_match s) [
  | none ↦ some (record { port = ℤ.negsuc 0; host = []; proto = [] })
  | some (proto, (host, digits)) ↦
      if is_empty digits
      then some (record { port = ℤ.negsuc 0; host = host; proto = proto })
      else stoul digits >>= λ n. some (record { port = to_int n; host = host; proto = proto })
]
