-- ===== src/Api/Objects.antt =====
-- lib/src/api/object.cpp, and `GetObjectSize` of lib/src/api/s3-api.cpp.
pub mod Bounds
use s3client.Common.{
  ℕ, zero, suc, ◌+◌, ◌^◌, List, [], ◌∷◌, ◌++◌, Bytes, Option, none, some, Bool, true, false, ◌==◌,
  leb, ltb, if◌then◌else◌, codes, length, take, drop, same_text,
}
use s3client.Common.Dict.{Dict, insert, assign}
use s3client.Text.Url.{to_lower}
use s3client.Text.Headers.{http_header, http_headers}
use s3client.Sign.{to_string, ℤ, is_empty}
use s3client.Http.Client.{WebClient, Sink, Source, file_at, send_request, set_sink}
use s3client.Http.Uploads.{upload_file_at}
use s3client.Xml.Records
use s3client.Xml.Responses.{
  AccessControlPolicy, ListObjectV2Result, parse_objects, parse_acl, parse_tagging_response,
  parse_list_object_versions, stoul,
}
use s3client.Api.{
  ReadBuffer, SendParams, UploadData, upload_text, upload_buffer, plain_request, Environment, S3Api,
  Error, bad_response, missing_etag, no_file, too_small, Result, ok, err, Action, pure, raise,
  or_raise, ◌>>=◌, ◌>>◌,
}
use s3client.Api.Send.{send, config, by_client, on_client, handle_error}

pub number : ℕ → Bytes
number n = to_string (ℤ.pos n)

-- `{{"versionId", versionId}}`, or no parameters.
unfoldable pub version_params : Bytes → Dict Bytes
version_params version_id = if is_empty version_id then [] else (codes "versionId", version_id) ∷ []

-- A header with the range of the bytes, under a name that differs between the operations.
unfoldable pub with_range : Bytes → ℕ → ℕ → Dict Bytes → Dict Bytes
with_range name begin end headers =
    if ltb 0 end
    then insert name (codes "bytes=" ++ (number begin ++ (codes "-" ++ number end))) headers
    else headers

-- `copy` into a buffer; the second is the one into a `CharArray`, whose test comes before it.
unfoldable pub copied : Bytes → ℕ → Bytes → Bytes
copied buffer offset bytes = take offset buffer ++ (bytes ++ drop (offset + length bytes) buffer)

unfoldable pub fits : Bytes → ℕ → Bytes → Bool
fits buffer offset bytes = ltb (offset + length bytes) (length buffer)

pub record ListObjectV2Config : Type 0 where
  pub continuation_token : Bytes
  pub delimiter : Bytes
  pub encoding_type : Bytes
  pub fetch_owner : Bytes
  pub max_keys : ℕ
  pub prefix : Bytes
  pub start_after : Bytes

module _ {W : Type 0} (env : Environment W) where
  -- `PutObject`, both overloads: the content and its size.
  pub put_object : Bytes → Bytes → Bytes → ℕ → Dict Bytes → Bytes → Action W Bytes
  put_object bucket key content size headers payload_hash = do
    wc ← send env (record plain_request {
      method = codes "PUT";
      bucket = bucket;
      key = key;
      headers = insert (codes "content-length") (number size) headers;
      payload_hash = payload_hash;
      upload_data = upload_buffer (record { size = size; content = some content });
    })
    let etag = http_header wc.header_buffer (codes "ETag")
    if is_empty etag then raise missing_etag else pure etag

  -- `PutFileObject`, which sends the file from its start, whatever the offset.
  pub put_file_object : Bytes → Bytes → Bytes → ℕ → ℕ → Dict Bytes → Bytes → Action W Bytes
  put_file_object name bucket key offset size headers payload_hash = do
    fsize ← λ s. (ok (if size == 0 then env.net.file_size s.world name else size), s)
    config env (record plain_request {
      method = codes "PUT";
      bucket = bucket;
      key = key;
      headers = insert (codes "content-length") (number fsize) headers;
      payload_hash = payload_hash;
    })
    sent ← by_client env (upload_file_at env.net name 0 fsize)
    if sent then handle_error env else raise no_file
    λ s. (ok (http_header s.web.header_buffer (codes "ETag")), s)

  -- `GetObject` that returns the body.
  unfoldable pub get_object : Bytes → Bytes → ℕ → ℕ → Dict Bytes → Bytes → Action W Bytes
  get_object bucket key begin end headers version_id = do
    wc ← send env (record plain_request {
      bucket = bucket;
      key = key;
      params = version_params version_id;
      headers = with_range (codes "Range") begin end headers;
    })
    pure wc.written.content

  unfoldable pub into_array : Bytes → ℕ → Bytes → Action W Bytes
  into_array buffer offset bytes =
      if fits buffer offset bytes then pure (copied buffer offset bytes) else raise too_small

  -- `GetObject` into a `CharArray` at an offset.
  unfoldable pub get_object_array :
      Bytes → Bytes → Bytes → ℕ → ℕ → ℕ → Dict Bytes → Bytes → Action W Bytes
  get_object_array bucket key buffer offset begin end headers version_id = do
    bytes ← get_object bucket key begin end headers version_id
    into_array buffer offset bytes

  -- `GetObject` into a `char *`: the parameters with the version are not sent, and the room is not
  -- tested.
  pub get_object_pointer : Bytes → Bytes → Bytes → ℕ → ℕ → ℕ → Dict Bytes → Bytes → Action W Bytes
  get_object_pointer bucket key buffer offset begin end headers version_id = do
    wc ← send env (record plain_request {
      bucket = bucket;
      key = key;
      headers = with_range (codes "Range") begin end headers;
    })
    pure (copied buffer offset wc.written.content)

  -- `GetFileObject`. The body is written to the file from the offset on, also that of an error.
  pub get_file_object : Bytes → Bytes → Bytes → ℕ → ℕ → ℕ → Dict Bytes → Bytes → Action W (Unit {0})
  get_file_object name bucket key offset begin end headers version_id = do
    opened ← λ s. (ok (env.net.can_open s.world name), s)
    if opened then pure tt else raise no_file
    config env (record plain_request {
      bucket = bucket;
      key = key;
      params = version_params version_id;
      headers = with_range (codes "range") begin end headers;
    })
    on_client env (set_sink (file_at name offset))
    by_client env (send_request env.net)
    handle_error env

  pub delete_object : Bytes → Bytes → Dict Bytes → Bytes → Action W (Unit {0})
  delete_object bucket key headers version_id = do
    send env (record plain_request {
      method = codes "DELETE";
      bucket = bucket;
      key = key;
      params = version_params version_id;
      headers = headers;
    })
    pure tt

  -- `HeadObject`, which does not send the parameters with the version.
  pub head_object : Bytes → Bytes → Dict Bytes → Bytes → Action W (Dict Bytes)
  head_object bucket key headers version_id = do
    wc ← send env (record plain_request {
      method = codes "HEAD";
      bucket = bucket;
      key = key;
      headers = headers;
    })
    pure (http_headers wc.header_buffer)

  -- Whether an action returns: `TestObject` and `TestBucket`.
  abbrev pub succeeds : {A : Type 0} → Result A × S3Api W → Result Bool × S3Api W
  succeeds (ok a, s) = (ok true, s)
  succeeds (err e, s) = (ok false, s)

  -- The default of the headers is `{{}}`.
  pub test_object : Bytes → Bytes → Action W Bool
  test_object bucket key s = succeeds (head_object bucket key (([], []) ∷ []) [] s)

  -- `GetValue` with the expression `length` and no case.
  pub length_value : Dict Bytes → Bytes
  length_value [] = []
  length_value ((k, v) ∷ m) =
      let rest = length_value m in if same_text (to_lower k) (codes "length") then v else rest

  -- `GetObjectSize`; -1 is `negsuc 0`. `stoll` throws from 2 ^ 63 on.
  pub size_result : Result (Dict Bytes) × S3Api W → Result ℤ × S3Api W
  size_result (err e, s) = (ok (ℤ.negsuc 0), s)
  size_result (ok headers, s) = elim (stoul (length_value headers)) [
    | none ↦ (ok (ℤ.negsuc 0), s)
    | some n ↦ (ok (if ltb n (2 ^ 63) then ℤ.pos n else ℤ.negsuc 0), s)
  ]

  pub get_object_size : Bytes → Bytes → Bytes → Action W ℤ
  get_object_size bucket key version_id s = size_result (head_object bucket key [] version_id s)

  pub list_params : ListObjectV2Config → Dict Bytes
  list_params c = assign (codes "start-after") c.start_after (
      assign (codes "prefix") c.prefix (
        assign (codes "fetch-owner") c.fetch_owner (
          assign (codes "encoding-type") c.encoding_type (
            assign (codes "delimiter") c.delimiter
              (assign (codes "continuation_token") c.continuation_token [])))))

  pub list_objects_v2 : Bytes → ListObjectV2Config → Dict Bytes → Action W ListObjectV2Result
  list_objects_v2 bucket cfg headers = do
    wc ←
        send env
          (record plain_request { bucket = bucket; params = list_params cfg; headers = headers })
    or_raise (parse_objects env.dom wc.written.content) bad_response

  -- The body of a GET of a named part of an object or of a bucket, whose key is empty.
  pub get_part : Bytes → Bytes → Bytes → Action W Bytes
  get_part bucket key name = do
    wc ← send env (record plain_request { bucket = bucket; key = key; params = (name, []) ∷ [] })
    pure wc.written.content

  pub get_object_acl : Bytes → Bytes → Action W AccessControlPolicy
  get_object_acl bucket key = do
    c ← get_part bucket key (codes "acl")
    or_raise (parse_acl env.dom c) bad_response

  pub get_object_tagging : Bytes → Bytes → Action W (Dict Bytes)
  get_object_tagging bucket key = do
    r ← get_part bucket key (codes "tagging")
    or_raise (parse_tagging_response env.dom r) bad_response

  pub delete_object_tagging : Bytes → Bytes → Dict Bytes → Action W (Unit {0})
  delete_object_tagging bucket key headers = do
    send env (record plain_request {
      method = codes "DELETE";
      bucket = bucket;
      key = key;
      params = (codes "tagging", []) ∷ [];
      headers = headers;
    })
    pure tt

  pub list_object_versions : Bytes → Bytes → Action W (List Bytes × List Bytes)
  list_object_versions bucket key = do
    c ← get_part bucket key (codes "versions")
    or_raise (parse_list_object_versions env.dom c) bad_response
