-- ===== src/Xml/Responses.antt =====
-- lib/src/api/xml_parser.cpp: what the API reads from the XML of a response. `none` is an exception.
pub mod Versions
use s3client.Common.{
  ℕ, zero, suc, ◌+◌, ◌-◌, ◌*◌, ◌^◌, List, [], ◌∷◌, ◌++◌, Bytes, Option, none, some, Bool, true,
  false, ◌==◌, ltb, if◌then◌else◌, get_or, length, codes, same_text,
}
use s3client.Common.Dict.{Dict, assign, lookup_all}
use s3client.Hash.Utility.{◌>>=◌}
use s3client.Sign.{is_empty}
use s3client.Text.Url.{is_digit, to_lower}
use s3client.Xml.Dom.{Dom}
use s3client.Xml.Path.{trim, skip_spaces}
use s3client.Xml.Visitors.{dom_to_dict}
use s3client.Xml.Records.{extract_sub_paths, query, as_text, as_records, get}

pub record BucketInfo : Type 0 where
  pub name : Bytes
  pub creation_date : Bytes

pub record ObjectInfo : Type 0 where
  pub checksum_algo : Bytes
  pub key : Bytes
  pub last_modified : Bytes
  pub etag : Bytes
  pub size : ℕ
  pub storage_class : Bytes
  pub owner_display_name : Bytes
  pub owner_id : Bytes

pub record ListObjectV2Result : Type 0 where
  pub truncated : Bool
  pub keys : List ObjectInfo

pub record Grantee : Type 0 where
  pub display_name : Bytes
  pub email_address : Bytes
  pub id : Bytes
  pub xsi_type : Bytes
  pub uri : Bytes

pub record Grant : Type 0 where
  pub grantee : Grantee
  pub permission : Bytes

pub record AccessControlPolicy : Type 0 where
  pub owner_display_name : Bytes
  pub owner_id : Bytes
  pub grants : List Grant

pub parse_bool : Bytes → Option Bool
parse_bool [] = some false
parse_bool (c ∷ s) = do t ← trim (c ∷ s); some (same_text (to_lower t) (codes "true"))

-- `stoul`: blanks, digits, and what follows is not read; with no digit, or beyond 64 bits, it throws.
-- A sign is not read.
unfoldable pub digits_value : ℕ → Bytes → Option ℕ
digits_value n [] = some n
digits_value n (c ∷ s) = elim (is_digit c) [
  | false ↦ some n
  | true ↦ let m = n * 10 + (c - 48) in if ltb m (2 ^ 64) then digits_value m s else none
]

unfoldable pub stoul : Bytes → Option ℕ
stoul s = elim (skip_spaces s) [
  | [] ↦ none
  | c ∷ t ↦ if is_digit c then digits_value 0 (c ∷ t) else none
]

pub size_of : Bytes → Option ℕ
size_of [] = some 0
size_of (c ∷ s) = stoul (c ∷ s)

-- The buckets from `i` on: a name and a date each.
pub bucket_loop : ℕ → ℕ → List Bytes → List Bytes → List BucketInfo
bucket_loop zero i names dates = []
bucket_loop (suc left) i names dates =
    record { name = get_or names i []; creation_date = get_or dates i [] }
    ∷ bucket_loop left (i + 1) names dates

pub object_loop : List (Dict Bytes) → Option (List ObjectInfo)
object_loop [] = some []
object_loop (i ∷ r) = do
  size ← size_of (get i (codes "/size"))
  rest ← object_loop r
  some (
      record {
        checksum_algo = get i (codes "/checksumalgo");
        key = get i (codes "/key");
        last_modified = get i (codes "/lastmodified");
        etag = get i (codes "/etag");
        size = size;
        storage_class = get i (codes "/storageclass");
        owner_display_name = get i (codes "/owner/displayname");
        owner_id = get i (codes "/owner/id");
      }
      ∷ rest)

pub grant_of : Dict Bytes → Grant
grant_of i = record {
  grantee = record {
    display_name = get i (codes "/grantee/displayname");
    email_address = get i (codes "/grantee/emailaddress");
    id = get i (codes "/grantee/id");
    xsi_type = get i (codes "/grantee/type");
    uri = get i (codes "/grantee/uri");
  };
  permission = get i (codes "/permission");
}

pub grants_of : List (Dict Bytes) → List Grant
grants_of [] = []
grants_of (i ∷ r) = grant_of i ∷ grants_of r

-- `m[k] = v` for the tags that have both.
pub tag_loop : List (Dict Bytes) → Dict Bytes → Dict Bytes
tag_loop [] m = m
tag_loop (i ∷ r) m = tag_loop r (tagged (get i (codes "/key")) (get i (codes "/value")))
  where
    tagged : Bytes → Bytes → Dict Bytes
    tagged [] v = m
    tagged (c ∷ k) [] = m
    tagged (c ∷ k) (d ∷ v) = assign (c ∷ k) (d ∷ v) m

-- The version ids that are not empty.
unfoldable pub version_loop : List (Dict Bytes) → List Bytes
version_loop [] = []
version_loop (i ∷ r) =
    let rest = version_loop r in
    let v = get i (codes "/VersionId") in if is_empty v then rest else v ∷ rest

module _ (dom : Dom) where
  pub parse_buckets : Bytes → Option (List BucketInfo)
  parse_buckets [] = some []
  parse_buckets (c ∷ xml) = do
    d ← dom_to_dict dom (c ∷ xml)
    let r = extract_sub_paths (codes "/listallmybucketsresult/buckets") d
    let dates = lookup_all (codes "/bucket/creationdate") r
    let names = lookup_all (codes "/bucket/name") r
    if length dates == length names then some (bucket_loop (length dates) 0 names dates) else none

  pub parse_objects : Bytes → Option ListObjectV2Result
  parse_objects [] = some (record { truncated = false; keys = [] })
  parse_objects (c ∷ xml) = do
    d ← dom_to_dict dom (c ∷ xml)
    truncated ← parse_bool (as_text (query d (codes "/istruncated")))
    keys ← object_loop (as_records (query d (codes "listbucketresult/contents")))
    some (record { truncated = truncated; keys = keys })

  pub parse_acl : Bytes → Option AccessControlPolicy
  parse_acl [] = some (record { owner_display_name = []; owner_id = []; grants = [] })
  parse_acl (c ∷ xml) = do
    d ← dom_to_dict dom (c ∷ xml)
    some (record {
      owner_display_name = as_text (query d (codes "/accesscontrolpolicy/owner/displayname"));
      owner_id = as_text (query d (codes "/accesscontrolpolicy/owner/id"));
      grants =
          grants_of (as_records (query d (codes "accesscontrolpolicy/accesscontrollist/grant")));
    })

  pub parse_tagging_response : Bytes → Option (Dict Bytes)
  parse_tagging_response [] = some []
  parse_tagging_response (c ∷ xml) = do
    d ← dom_to_dict dom (c ∷ xml)
    some (tag_loop (as_records (query d (codes "tagging/tagset/tag"))) [])

  unfoldable pub parse_list_object_versions : Bytes → Option (List Bytes × List Bytes)
  parse_list_object_versions xml = do
    d ← dom_to_dict dom xml
    some (
      version_loop (as_records (query d (codes "ListVersionsResult/Version"))),
      version_loop (as_records (query d (codes "ListVersionsResult/DeleteMarker"))),
    )
