-- ===== src/Text/Params.antt =====
-- lib/src/url_utility.cpp: parameters, headers and metadata as texts. `none` is an exception, or an
-- assertion that fails.
use s3client.Common.{
  ℕ, ◌+◌, List, [], ◌∷◌, ◌++◌, Bytes, Option, none, some, Bool, false, ◌||◌, ◌==◌, ltb,
  if◌then◌else◌, codes, length,
}
use s3client.Common.Dict.{Dict, insert, assign}
use s3client.Hash.Utility.{◌>>=◌}
use s3client.Text.Split.{split}
use s3client.Text.Url.{to_lower}

pub holds : ℕ → Bytes → Bool
holds d [] = false
holds d (c ∷ s) = c == d || holds d s

-- A field as a name and a value, the value empty if there is none.
pub name_value : List Bytes → Option (Bytes × Bytes)
name_value [] = none
name_value (k ∷ []) = some (k, [])
name_value (k ∷ v ∷ []) = some (k, v)
name_value (k ∷ v ∷ u ∷ rest) = none

pub param_loop : List Bytes → Dict Bytes → Option (Dict Bytes)
param_loop [] params = some params
param_loop (p ∷ slist) params = do
  let p' = if holds 61 p then p else p ++ codes "="
  (k, v) ← name_value (split p' (codes "=") (some 1))
  param_loop slist (insert k v params)

-- `ParseParams`.
pub parse_params : Bytes → Option (Dict Bytes)
parse_params [] = some []
parse_params (c ∷ s) = param_loop (split (c ∷ s) (codes ";") none) []

pub parse_header_loop : List Bytes → Dict Bytes → Option (Dict Bytes)
parse_header_loop [] headers = some headers
parse_header_loop (p ∷ slist) headers = do
  (k, v) ← name_value (split p (codes ":") (some 1))
  parse_header_loop slist (insert (to_lower k) v headers)

-- `ParseHeaders`.
pub parse_headers : Bytes → Option (Dict Bytes)
parse_headers [] = some []
parse_headers (c ∷ s) = parse_header_loop (split (c ∷ s) (codes ";") none) []

pub meta_loop : Dict Bytes → Dict Bytes → ℕ → Dict Bytes × ℕ
meta_loop [] meta size = (meta, size)
meta_loop ((k, v) ∷ metadata) meta size =
    let key = codes "x-amz-meta-" ++ k in
    meta_loop metadata (assign key v meta) (size + (length key + length v + 1))

-- `ToMeta`.
pub to_meta : Dict Bytes → Option (Dict Bytes)
to_meta metadata =
    let (meta, size) = meta_loop metadata [] 0 in if ltb 2048 size then none else some meta
