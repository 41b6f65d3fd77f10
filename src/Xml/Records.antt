-- ===== src/Xml/Records.antt =====
-- Records of lib/src/xml_path.cpp and `XMLIStream` of lib/include/xmlstreams.h: texts below a path,
-- regrouped. A `std::unordered_map` is a map in the order of its keys; its results are maps as well.
use s3client.Common.{
  ℕ, zero, suc, ◌+◌, List, [], ◌∷◌, ◌++◌, Bytes, Option, none, some, true, false, max,
  if◌then◌else◌, get_or, length, drop, codes,
}
use s3client.Common.Dict.{Dict, insert, extend, lookup}
use s3client.Sign.{is_prefix}

-- The loop of `ExtractSubPaths`.
unfoldable pub sub_paths : Bytes → Dict (List Bytes) → Dict (List Bytes) → Dict (List Bytes)
sub_paths prefix [] ret = ret
sub_paths prefix ((k, vs) ∷ d) ret = elim (is_prefix prefix k) [
  | true ↦ sub_paths prefix d (extend (drop (length prefix) k) vs ret)
  | false ↦ sub_paths prefix d ret
]

unfoldable pub extract_sub_paths : Bytes → Dict (List Bytes) → Dict (List Bytes)
extract_sub_paths prefix d = sub_paths prefix d []

unfoldable pub max_elements : Dict (List Bytes) → ℕ
max_elements [] = 0
max_elements ((k, vs) ∷ r) = max (length vs) (max_elements r)

-- The fields of record `i`, an empty text where a field has fewer texts.
pub fields_at : ℕ → Dict (List Bytes) → Dict Bytes → Dict Bytes
fields_at i [] e = e
fields_at i ((k, vs) ∷ r) e = fields_at i r (insert k (get_or vs i []) e)

unfoldable pub record_loop : ℕ → ℕ → Dict (List Bytes) → List (Dict Bytes)
record_loop zero i r = []
record_loop (suc left) i r = fields_at i r [] ∷ record_loop left (i + 1) r

-- On no paths the largest number of texts is 0, and so is that of the records.
unfoldable pub record_list : Bytes → Dict (List Bytes) → List (Dict Bytes)
record_list prefix d = let r = extract_sub_paths prefix d in record_loop (max_elements r) 0 r

-- `XMLResult`.
pub data XmlResult : Type 0 where
  not_found : XmlResult
  one_text : Bytes → XmlResult
  all_texts : List Bytes → XmlResult
  all_records : List (Dict Bytes) → XmlResult

-- `operator[]`: the texts at a path, or the records below it; the first byte of an empty path is the
-- zero behind it.
unfoldable pub query : Dict (List Bytes) → Bytes → XmlResult
query d p =
    if is_prefix (codes "/") p then found (lookup p d) else below (record_list (codes "/" ++ p) d)
  where
    found : Option (List Bytes) → XmlResult
    found none = not_found
    found (some []) = all_texts []
    found (some (t ∷ [])) = one_text t
    found (some (t ∷ u ∷ ts)) = all_texts (t ∷ u ∷ ts)

    below : List (Dict Bytes) → XmlResult
    below [] = not_found
    below (r ∷ rs) = all_records (r ∷ rs)

pub as_text : XmlResult → Bytes
as_text (one_text t) = t
as_text _ = []

pub as_texts : XmlResult → List Bytes
as_texts (all_texts ts) = ts
as_texts _ = []

unfoldable pub as_records : XmlResult → List (Dict Bytes)
as_records (all_records rs) = rs
as_records _ = []

-- `Get`.
pub get : Dict Bytes → Bytes → Bytes
get r path = elim (lookup path r) [ none ↦ [] | some t ↦ t ]
