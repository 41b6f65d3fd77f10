-- ===== src/Api/Buckets.antt =====
-- lib/src/api/bucket.cpp.
use s3client.Common.{List, [], ◌∷◌, ◌++◌, Bytes, Bool, if◌then◌else◌, codes, same_text}
use s3client.Common.Dict.{Dict}
use s3client.Text.Url.{to_lower}
use s3client.Text.Headers.{http_headers}
use s3client.Text.Params.{parse_headers}
use s3client.Sign.{is_empty}
use s3client.Xml.Visitors.{find_element_text}
use s3client.Xml.Responses.{
  AccessControlPolicy, BucketInfo, parse_buckets, parse_acl, parse_tagging_response,
}
use s3client.Api.{
  upload_text, plain_request, Environment, bad_xml, bad_response, Action, pure, or_raise, ◌>>=◌,
  ◌>>◌,
}
use s3client.Api.Send.{send}
use s3client.Api.Objects.{get_part, succeeds}

pub record VersioningInfo : Type 0 where
  pub enabled : Bool
  pub mfa_delete : Bool

pub location_request : Bytes → Bytes
location_request constraint =
    codes "<?xml version=\"1.0\" encoding=\"UTF-8\"?>"
    ++ (codes "<CreateBucketConfiguration "
        ++ (codes "xmlns=\"http://s3.amazonaws.com/doc/2006-03-01/\">"
            ++ (codes "<LocationConstraint>"
                ++ (constraint ++ codes "</LocationConstraint></CreateBucketConfiguration>"))))

pub versioning_request : Bool → Bytes
versioning_request enabled =
    codes "<?xml version=\"1.0\" encoding=\"UTF-8\"?>"
    ++ (codes "<VersioningConfiguration xmlns="
        ++ (codes "\"http://s3.amazonaws.com/doc/2006-03-01/\"><Status>"
            ++ ((if enabled then codes "Enabled" else codes "Suspended")
                ++ codes "</Status></VersioningConfiguration>")))

-- The value of the first header named `location`.
pub location_of : Dict Bytes → Bytes
location_of [] = []
location_of ((k, v) ∷ h) =
    let rest = location_of h in if same_text (to_lower k) (codes "location") then v else rest

module _ {W : Type 0} (env : Environment W) where
  pub test_bucket : Bytes → Action W Bool
  test_bucket bucket s =
      succeeds env
        (send env (record plain_request { bucket = bucket; sign_url = s.signing_endpoint }) s)

  pub create_bucket : Bytes → Dict Bytes → Bytes → Action W Bytes
  create_bucket bucket headers constraint = do
    wc ← send env (record plain_request {
      method = codes "PUT";
      bucket = bucket;
      headers = headers;
      upload_data = upload_text (if is_empty constraint then [] else location_request constraint);
    })
    h ← or_raise (parse_headers wc.header_buffer) bad_response
    pure (location_of h)

  pub delete_bucket : Bytes → Dict Bytes → Action W (Unit {0})
  delete_bucket bucket headers = do
    send env (record plain_request { method = codes "DELETE"; bucket = bucket; headers = headers })
    pure tt

  -- `HeadBucket`, which reads the headers from the body.
  pub head_bucket : Bytes → Dict Bytes → Action W (Dict Bytes)
  head_bucket bucket headers = do
    wc ←
        send env
          (record plain_request { method = codes "HEAD"; bucket = bucket; headers = headers })
    pure (http_headers wc.written.content)

  pub list_buckets : Dict Bytes → Action W (List BucketInfo)
  list_buckets headers = do
    wc ← send env (record plain_request { headers = headers })
    or_raise (parse_buckets env.dom wc.written.content) bad_response

  pub get_bucket_acl : Bytes → Action W AccessControlPolicy
  get_bucket_acl bucket = do
    c ← get_part env bucket [] (codes "acl")
    or_raise (parse_acl env.dom c) bad_response

  pub get_bucket_tagging : Bytes → Action W (Dict Bytes)
  get_bucket_tagging bucket = do
    r ← get_part env bucket [] (codes "tagging")
    or_raise (parse_tagging_response env.dom r) bad_response

  pub delete_bucket_tagging : Bytes → Dict Bytes → Action W (Unit {0})
  delete_bucket_tagging bucket headers = do
    send env (record plain_request {
      method = codes "DELETE";
      bucket = bucket;
      params = (codes "tagging", []) ∷ [];
      headers = headers;
    })
    pure tt

  pub put_bucket_versioning : Bytes → Bool → Action W (Unit {0})
  put_bucket_versioning bucket enabled = do
    send env (record plain_request {
      method = codes "PUT";
      bucket = bucket;
      params = (codes "versioning", []) ∷ [];
      upload_data = upload_text (versioning_request enabled);
    })
    pure tt

  pub get_bucket_versioning : Bytes → Action W VersioningInfo
  get_bucket_versioning bucket = do
    xml ← get_part env bucket [] (codes "versioning")
    status ← or_raise (find_element_text env.dom xml (codes "status")) bad_xml
    mfa ← or_raise (find_element_text env.dom xml (codes "mfadelete")) bad_xml
    pure (record {
      enabled = same_text (to_lower status) (codes "enabled");
      mfa_delete = same_text (to_lower mfa) (codes "enabled");
    })
