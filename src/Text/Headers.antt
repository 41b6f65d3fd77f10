-- ===== src/Text/Headers.antt =====
-- lib/src/response_parser.cpp: the headers of a response and its ETag. The searches by a regular
-- expression are walks over the text: each of their classes ends where the next one starts.
use s3client.Common.{
  ℕ, zero, suc, ◌-◌, [], ◌∷◌, Bytes, Option, none, some, Bool, not, ◌&&◌, ◌||◌, ◌==◌, leb,
  if◌then◌else◌, codes, length, take, drop,
}
use s3client.Common.Dict.{Dict, assign}
use s3client.Sign.{is_prefix, is_empty}
use s3client.Text.Url.{to_lower, is_digit, is_upper, is_lower}
use s3client.Xml.Path.{is_space, skip_spaces}
use mathlib.Core.List.{reverse}

-- `" \n\t\r\v"`.
pub is_blank : ℕ → Bool
is_blank c = c == 32 || c == 10 || c == 9 || c == 13 || c == 11

pub skip_blanks : Bytes → Bytes
skip_blanks [] = []
skip_blanks (c ∷ s) = let rest = skip_blanks s in if is_blank c then rest else c ∷ s

-- `RTrim`.
unfoldable pub rtrim : Bytes → Bytes
rtrim s = reverse (skip_blanks (reverse s))

-- `substr(at, count)` at most to the end of the text.
unfoldable pub cut : ℕ → ℕ → Bytes → Bytes
cut at count s = take count (drop at s)

-- `TrimETag`. A count below 0 wraps, and takes the rest.
unfoldable pub trim_etag : Bytes → Bytes
trim_etag [] = []
trim_etag (c ∷ s) =
    let etag = c ∷ s in
    if c == 34
    then (if leb 2 (length etag) then cut 1 (length etag - 2) etag else cut 1 (length etag) etag)
    else if is_prefix (codes "&#34;") etag
    then (if leb 10 (length etag) then cut 5 (length etag - 10) etag else cut 5 (length etag) etag)
    else etag

-- The bytes up to the first that fails a test.
unfoldable pub run_of : (ℕ → Bool) → Bytes → Bytes
run_of p [] = []
run_of p (c ∷ s) = let rest = run_of p s in if p c then c ∷ rest else []

-- `\\s*:\\s*` and a run that is not empty; the rest of the text is behind the run.
unfoldable pub value_after : (ℕ → Bool) → Bytes → Option (Bytes × Bytes)
value_after p s = elim (skip_spaces s) [
  | [] ↦ none
  | c ∷ t ↦
      let u = skip_spaces t in
      let v = run_of p u in
      if c == 58 && not (is_empty v) then some (v, drop (length v) u) else none
]

-- `HTTPHeader`, for a name of letters: the first place where the name, in any case, and a value match.
unfoldable pub http_header : Bytes → Bytes → Bytes
http_header [] header = []
http_header (c ∷ s) header =
    let later = http_header s header in
    let here =
      if is_prefix (to_lower header) (to_lower (c ∷ s))
      then value_after (λ x. not (is_space x)) (drop (length header) (c ∷ s))
      else none in
    elim here [ some v ↦ v.0 | none ↦ later ]

-- `\\w`.
unfoldable pub is_word : ℕ → Bool
is_word c = is_digit c || is_upper c || is_lower c || c == 95

-- The names and values of `HTTPHeaderFilter`, whose name is a run of word letters behind a prefix;
-- `left` bytes of a match are still to be passed.
unfoldable pub filter_loop : Bytes → ℕ → Bytes → Dict Bytes → Dict Bytes
filter_loop prefix left [] headers = headers
filter_loop prefix (suc left) (c ∷ s) headers = filter_loop prefix left s headers
filter_loop prefix zero (c ∷ s) headers =
    elim (if is_prefix prefix (to_lower (c ∷ s))
      then value_after is_word (
          drop (length (run_of is_word (drop (length prefix) (c ∷ s))))
            (drop (length prefix) (c ∷ s)))
      else none) [
        | none ↦ filter_loop prefix zero s headers
        | some v ↦ elim (run_of is_word (drop (length prefix) (c ∷ s))) [
          | [] ↦ filter_loop prefix zero s headers
          | n ∷ name ↦ filter_loop prefix (length s - length v.1) s (assign (n ∷ name) v.0 headers)
        ]
      ]

-- `HTTPHeaders` and `MetaDataHeaders`.
unfoldable pub http_headers : Bytes → Dict Bytes
http_headers txt = filter_loop [] 0 txt []

pub meta_data_headers : Bytes → Dict Bytes
meta_data_headers txt = filter_loop (codes "x-amz-meta-") 0 txt []
