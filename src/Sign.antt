-- ===== src/Sign.antt =====
-- lib/src/aws_sign.cpp: the signature of a request (AWS S3v4), of its headers and of a URL.
pub mod Request
pub mod Endpoint
use s3client.Common.{
  ℕ, zero, suc, ◌+◌, ◌/◌, ◌%◌, ◌^◌, List, [], ◌∷◌, ◌++◌, Bytes, Option, none, some, Bool, true,
  false, not, ◌==◌, ltb, ◌&&◌, ◌||◌, if◌then◌else◌, codes, length, take, same_text,
}
use s3client.Common.Word.{u32}
use s3client.Common.Dict.{Dict, insert, insert_all, keys}
use s3client.Hash.Utility.{◌>>=◌}
use s3client.Hash.Sha256.{sha256, hash_to_text, hex_byte}
use s3client.Hash.Hmac.{hmac256}
use s3client.Text.Url.{url_encode_map, drop_last, to_upper, to_lower}

-- An `int`.
pub data ℤ : Type 0 where
  pos negsuc : ℕ → ℤ

pub record Url : Type 0 where
  pub port : ℤ
  pub host : Bytes
  pub proto : Bytes

pub record Time : Type 0 where
  pub time_stamp : Bytes
  pub date_stamp : Bytes

pub record ComputeSignatureConfig : Type 0 where
  pub access : Bytes
  pub secret : Bytes
  pub endpoint : Bytes
  pub method : Bytes
  pub bucket : Bytes
  pub key : Bytes
  pub payload_hash : Bytes
  pub parameters : Dict Bytes
  pub headers : Dict Bytes
  pub region : Bytes
  pub service : Bytes
  pub dates : Time

pub record S3SignUrlConfig : Type 0 where
  pub access : Bytes
  pub secret : Bytes
  pub endpoint : Bytes
  pub expiration : ℤ
  pub method : Bytes
  pub bucket : Bytes
  pub key : Bytes
  pub params : Dict Bytes
  pub headers : Dict Bytes
  pub region : Bytes
  pub dates : Time

pub record Signature : Type 0 where
  pub signature : Bytes
  pub credential_scope : Bytes
  pub signed_headers_str : Bytes
  pub default_headers : Dict Bytes

unfoldable pub is_empty {ℓ} : {A : Type ℓ} → List A → Bool
is_empty [] = true
is_empty (x ∷ xs) = false

-- `s.find(prefix) == 0`.
unfoldable pub is_prefix : Bytes → Bytes → Bool
is_prefix [] s = true
is_prefix (p ∷ ps) [] = false
is_prefix (p ∷ ps) (c ∷ s) = p == c && is_prefix ps s

-- `to_string`; a number has fewer digits than its value plus one.
unfoldable pub decimal_digits : ℕ → ℕ → Bytes
decimal_digits zero n = []
decimal_digits (suc fuel) n = elim (ltb n 10) [
  | true ↦ (48 + n) ∷ []
  | false ↦ decimal_digits fuel (n / 10) ++ (48 + n % 10) ∷ []
]

unfoldable pub to_string : ℤ → Bytes
to_string (pos n) = decimal_digits (n + 1) n
to_string (negsuc n) = codes "-" ++ decimal_digits (n + 2) (n + 1)

-- `SHA256`: the length is converted to 32 bits.
pub sha256_text : Bytes → Option Bytes
sha256_text s = do hash ← sha256 (take (u32 (length s)) s); some (hash_to_text hash)

-- `Hash`.
pub hash_with : Bytes → Bytes → Option Bytes
hash_with key msg = hmac256 msg key

pub create_signature_key : Bytes → Bytes → Bytes → Bytes → Option Bytes
create_signature_key key date_stamp region service = do
  date_key ← hash_with (codes "AWS4" ++ key) date_stamp
  region_key ← hash_with date_key region
  service_key ← hash_with region_key service
  hash_with service_key (codes "aws4_request")

pub hex : Bytes → Bytes
hex [] = []
hex (x ∷ b) = hex_byte x ++ hex b

-- `url.port <= 0 ? url.host : url.host + ":" + to_string(url.port)`.
unfoldable pub host_of : Url → Bytes
host_of url = elim (url.port) [
  | pos zero ↦ url.host
  | pos (suc n) ↦ url.host ++ (codes ":" ++ to_string (pos (suc n)))
  | negsuc n ↦ url.host
]

-- A text that starts with `/`, and names the bucket and the key, when they are given.
pub resource_of : Bytes → Bytes → Bytes
resource_of bucket key =
    codes "/"
    ++ (if is_empty bucket then [] else bucket ++ (if is_empty key then [] else codes "/" ++ key))

-- A line for each header.
pub header_lines : Dict Bytes → Bytes
header_lines [] = []
header_lines ((k, v) ∷ m) = k ++ (codes ":" ++ (v ++ (codes "\n" ++ header_lines m)))

-- The names, each with a `;` behind it.
pub name_list : List Bytes → Bytes
name_list [] = []
name_list (k ∷ ks) = k ++ (codes ";" ++ name_list ks)

-- The headers that are signed, apart from the default ones.
pub is_signed : Bytes → Bool
is_signed k = is_prefix (codes "x-amz-") k || is_prefix (codes "content-length") k

pub default_headers : Bytes → Bytes → Bytes → Dict Bytes
default_headers host payload_hash time_stamp =
    insert (codes "x-amz-date") time_stamp
      (insert (codes "x-amz-content-sha256") payload_hash (insert (codes "host") host []))

-- A `set<string>` is a map to nothing.
pub key_loop : Dict Bytes → Dict (Unit {0}) → Dict (Unit {0})
key_loop [] signed = signed
key_loop ((k, v) ∷ rest) signed = key_loop rest (insert k tt signed)

pub header_loop : Dict Bytes → Dict Bytes → Dict (Unit {0}) → Dict Bytes × Dict (Unit {0})
header_loop [] canonical signed = (canonical, signed)
header_loop ((k, v) ∷ rest) canonical signed = elim (is_signed k) [
  | true ↦ header_loop rest (insert k v canonical) (insert k tt signed)
  | false ↦ header_loop rest canonical signed
]

-- The test of a debug build.
pub all_lower : Dict Bytes → Bool
all_lower [] = true
all_lower ((k, v) ∷ m) = same_text k (to_lower k) && all_lower m
