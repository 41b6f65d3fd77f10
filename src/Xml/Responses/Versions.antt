-- ===== src/Xml/Responses/Versions.antt =====
-- `ParseListObjectVersions`, whose paths are in mixed case.
use s3client.Common.{List, [], ◌∷◌, Bytes, some, false, codes, ◌≡◌, refl, All, arith}
use s3client.Common.Dict.{Dict, keys}
use s3client.Sign.{is_prefix}
use s3client.Text.Url.{is_upper}
use s3client.Xml.Dom.{Nodes, Dom, IsDom}
use s3client.Xml.Visitors.{dict_of, dom_to_dict}
use s3client.Xml.Visitors.Keys.{IsLowered, dict_of-IsLowered}
use s3client.Xml.Records.{
  sub_paths, extract_sub_paths, record_list, record_loop, max_elements, query, as_records,
}
use s3client.Xml.Responses.{parse_list_object_versions, version_loop}

-- No lowered path starts as the path of the query does.
no_start : (rest k : Bytes) → IsLowered k → is_prefix (47 ∷ 76 ∷ rest) k ≡ false
unfolding is_prefix is_upper
no_start rest [] h = refl
no_start rest (c ∷ []) h = ground arith
no_start rest (c ∷ d ∷ k) (hc, (hd, h)) = ground arith

no_sub_paths :
    (rest : Bytes) (d : Dict (List Bytes))
    → All IsLowered (keys d)
    → sub_paths (47 ∷ 76 ∷ rest) d [] ≡ []
unfolding sub_paths keys
no_sub_paths rest [] h = refl
no_sub_paths rest ((k, vs) ∷ d) (hk, h) = rw (sub_paths, no_start rest k hk) (no_sub_paths rest d h)

no_records :
    (rest : Bytes) (d : Dict (List Bytes))
    → All IsLowered (keys d)
    → as_records (query d (76 ∷ rest)) ≡ []
unfolding query record_list record_loop max_elements extract_sub_paths as_records is_prefix
no_records rest d h = rw (no_sub_paths rest d h) refl

-- Whatever a response holds, the two lists of `ListObjectVersions` are empty, if its text is parsed:
-- the paths of the query are in mixed case, and those of the document in lower case.
pub list_object_versions_empty :
    (dom : Dom) (xml : Bytes) (doc : Nodes)
    → IsDom dom
    → dom.parse xml ≡ some doc
    → parse_list_object_versions dom xml ≡ some ([], [])
unfolding parse_list_object_versions dom_to_dict version_loop
list_object_versions_empty dom xml doc d h =
    let low = dict_of-IsLowered dom d doc in
    rw
      (
        h,
        no_records (codes "istVersionsResult/Version") (dict_of dom doc) low,
        no_records (codes "istVersionsResult/DeleteMarker") (dict_of dom doc) low,
      )
      refl
