-- ===== src/Api/Documents.antt =====
-- The requests that send a document: the access control lists and the tags of lib/src/api/bucket.cpp,
-- lib/src/api/object.cpp and lib/src/api/xml_parser.cpp.
use s3client.Common.{[], ◌∷◌, Bytes, Option, some, codes}
use s3client.Common.Dict.{Dict}
use s3client.Hash.Utility
use s3client.Xml.Builder.{Builder}
use s3client.Xml.Responses.{AccessControlPolicy}
use s3client.Xml.Requests.{generate_acl_xml, tagging_xml}
use s3client.Api.{
  SendParams, upload_text, plain_request, Environment, Action, pure, or_raise, bad_params, ◌>>=◌,
  ◌>>◌,
}
use s3client.Api.Send.{send}

module _ {W : Type 0} (env : Environment W) (b : Builder) where
  unfoldable pub generate_put_bucket_tagging_request :
      Bytes → Dict Bytes → Dict Bytes → Option SendParams
  generate_put_bucket_tagging_request bucket tags headers =
      Utility.◌>>=◌ (tagging_xml b env.dom tags) λ xml. some (record plain_request {
        method = codes "PUT";
        bucket = bucket;
        params = (codes "tagging", []) ∷ [];
        headers = headers;
        upload_data = upload_text xml;
      })

  unfoldable pub generate_put_object_tagging_request :
      Bytes → Bytes → Dict Bytes → Dict Bytes → Option SendParams
  generate_put_object_tagging_request bucket key tags headers =
      Utility.◌>>=◌ (tagging_xml b env.dom tags) λ xml. some (record plain_request {
        method = codes "PUT";
        bucket = bucket;
        key = key;
        params = (codes "tagging", []) ∷ [];
        headers = headers;
        upload_data = upload_text xml;
      })

  unfoldable pub put_bucket_acl : Bytes → AccessControlPolicy → Action W (Unit {0})
  put_bucket_acl bucket acl = do
    xml ← or_raise (generate_acl_xml b env.dom acl) bad_params
    send env (record plain_request {
      method = codes "PUT";
      bucket = bucket;
      params = (codes "acl", []) ∷ [];
      upload_data = upload_text xml;
    })
    pure tt

  unfoldable pub put_object_acl : Bytes → Bytes → AccessControlPolicy → Action W (Unit {0})
  put_object_acl bucket key acl = do
    xml ← or_raise (generate_acl_xml b env.dom acl) bad_params
    send env (record plain_request {
      method = codes "PUT";
      bucket = bucket;
      key = key;
      params = (codes "acl", []) ∷ [];
      upload_data = upload_text xml;
    })
    pure tt

  unfoldable pub put_bucket_tagging : Bytes → Dict Bytes → Dict Bytes → Action W (Unit {0})
  put_bucket_tagging bucket tags headers = do
    r ← or_raise (generate_put_bucket_tagging_request bucket tags headers) bad_params
    send env r
    pure tt

  unfoldable pub put_object_tagging : Bytes → Bytes → Dict Bytes → Dict Bytes → Action W (Unit {0})
  put_object_tagging bucket key tags headers = do
    r ← or_raise (generate_put_object_tagging_request bucket key tags headers) bad_params
    send env r
    pure tt
