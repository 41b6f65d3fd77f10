-- ===== src/Api/Multipart.antt =====
-- lib/src/api/multipart_upload.cpp. A retry loop has its remaining tries as fuel.
pub mod Retries
use s3client.Common.{
  ℕ, zero, suc, ◌+◌, ◌-◌, ◌^◌, List, [], ◌∷◌, ◌++◌, Bytes, Option, none, some, Bool, true, false,
  ◌==◌, leb, ltb, if◌then◌else◌, codes, length,
}
use s3client.Common.Dict.{Dict, insert}
use s3client.Text.Headers.{http_header, trim_etag}
use s3client.Sign.{is_empty}
use s3client.Http.Client.{WebClient}
use s3client.Http.Uploads.{upload_file_at, upload_file_unbuffered, upload_file_mm}
use s3client.Xml.Visitors.{find_element_text}
use s3client.Api.{
  ReadBuffer, SendParams, UploadData, upload_text, upload_buffer, plain_request, Environment, S3Api,
  Error, bad_xml, missing_etag, no_file, overflow, no_fuel, Result, ok, err, Action, pure, raise,
  or_raise, set_retries, ◌>>=◌, ◌>>◌,
}
use s3client.Api.Send.{send, config, by_client, handle_error}
use s3client.Api.Objects.{number}

pub data FileIoMode : Type 0 where
  buffered unbuffered memory_mapped : FileIoMode

-- The parts of the document, numbered from `index + 1`.
pub end_parts : ℕ → List Bytes → Bytes
end_parts index [] = []
end_parts index (es ∷ etags) =
    codes "<Part><ETag>"
    ++ (es
        ++ (codes "</ETag><PartNumber>"
            ++ (number (index + 1)
                ++ (codes "</PartNumber></Part>" ++ end_parts (index + 1) etags))))

-- `BuildEndUploadXML`.
pub build_end_upload_xml : List Bytes → Bytes
build_end_upload_xml etags =
    codes "<?xml version=\"1.0\" encoding=\"UTF-8\"?>\n"
    ++ (codes "<CompleteMultipartUpload "
        ++ (codes "xmlns=\"http://s3.amazonaws.com/doc/2006-03-01/\">\n"
            ++ (end_parts 0 etags ++ codes "</CompleteMultipartUpload>")))

pub part_params : ℕ → Bytes → Dict Bytes
part_params i upload_id = (codes "partNumber", number (i + 1)) ∷ (codes "uploadId", upload_id) ∷ []

module _ {W : Type 0} where
  -- The handler of both uploads: on the last try the exception is thrown (with the number of the part
  -- before its message). The number of the try is an `int`, which `++` of the largest one overflows.
  unfoldable pub retried :
      ℕ → ℕ → (S3Api W → Result Bytes × S3Api W) → Result Bytes × S3Api W → Result Bytes × S3Api W
  retried try_num max_retries again (ok etag, s) = (ok etag, s)
  retried try_num max_retries again (err e, s) =
      let rest = again (record s { retries = s.retries + 1 }) in
      if try_num == max_retries
      then (err e, s)
      else if ltb try_num (2 ^ 31 - 1)
      then rest
      else (err overflow, record s { retries = s.retries + 1 })

  unfoldable pub retry_loop : ℕ → ℕ → ℕ → Action W Bytes → Action W Bytes
  retry_loop zero try_num max_retries attempt s = (err no_fuel, s)
  retry_loop (suc fuel) try_num max_retries attempt s =
      retried try_num max_retries (λ t. retry_loop fuel (try_num + 1) max_retries attempt t)
        (attempt s)

module _ {W : Type 0} (env : Environment W) where
  -- The ETag of the last response.
  unfoldable pub part_etag : Action W Bytes
  part_etag s =
      let etag = http_header s.web.header_buffer (codes "Etag") in
      (if is_empty etag then err missing_etag else ok (trim_etag etag), s)

  abbrev pub upload_by : FileIoMode → Bytes → ℕ → ℕ → WebClient → W → Bool × (WebClient × W)
  upload_by buffered = upload_file_at env.net
  upload_by unbuffered = upload_file_unbuffered env.net
  upload_by memory_mapped = upload_file_mm env.net

  -- A try of `DoUploadFilePart`.
  unfoldable pub try_file_part :
      Bytes → ℕ → ℕ → Bytes → Bytes → Bytes → ℕ → FileIoMode → Dict Bytes → Bytes → Action W Bytes
  try_file_part name offset size bucket key upload_id i mode headers payload_hash = do
    config env (record plain_request {
      method = codes "PUT";
      bucket = bucket;
      key = key;
      params = part_params i upload_id;
      headers = insert (codes "content-length") (number size) headers;
      payload_hash = payload_hash;
    })
    sent ← by_client env (upload_by mode name offset size)
    if sent then handle_error env else raise no_file
    part_etag

  -- A try of `DoUploadPart`. The hash of the payload is not passed on.
  unfoldable pub try_part : Bytes → Bytes → Bytes → Bytes → ℕ → ℕ → Dict Bytes → Action W Bytes
  try_part bucket key content upload_id i size headers = do
    send env (record plain_request {
      method = codes "PUT";
      bucket = bucket;
      key = key;
      params = part_params i upload_id;
      headers = insert (codes "content-length") (number size) headers;
      upload_data = upload_buffer (record { size = size; content = some content });
    })
    part_etag

  -- `UploadPart` and `UploadFilePart`, with the tries that they are given: the first try is number 1.
  unfoldable pub upload_part :
      ℕ → Bytes → Bytes → Bytes → ℕ → Bytes → ℕ → ℕ → Dict Bytes → Action W Bytes
  upload_part fuel bucket key uid i content size max_retries headers =
      retry_loop fuel 1 max_retries (try_part bucket key content uid i size headers)

  unfoldable pub upload_file_part :
      ℕ
      → Bytes
      → ℕ
      → ℕ
      → Bytes
      → Bytes
      → Bytes
      → ℕ
      → FileIoMode
      → ℕ
      → Dict Bytes
      → Bytes
      → Action W Bytes
  upload_file_part fuel name offset size bucket key uid i mode max_retries headers payload_hash =
      retry_loop fuel 1 max_retries
        (try_file_part name offset size bucket key uid i mode headers payload_hash)

  -- `CompleteMultipartUpload`.
  pub complete_multipart_upload : Bytes → Bytes → Bytes → List Bytes → Action W Bytes
  complete_multipart_upload uid bucket key etags = do
    wc ← send env (record plain_request {
      method = codes "POST";
      bucket = bucket;
      key = key;
      params = (codes "uploadId", uid) ∷ [];
      upload_data = upload_text (build_end_upload_xml etags);
    })
    etag ← or_raise (find_element_text env.dom wc.written.content (codes "ETag")) bad_xml
    if is_empty etag then raise missing_etag else pure (trim_etag etag)

  -- `CreateMultipartUpload`, which sets the counter of retries back.
  pub create_multipart_upload : Bytes → Bytes → ℕ → Dict Bytes → Action W Bytes
  create_multipart_upload bucket key part_size headers = do
    wc ← send env (record plain_request {
      method = codes "POST";
      bucket = bucket;
      key = key;
      params = (codes "uploads", []) ∷ [];
      headers =
          if ltb 0 part_size
          then insert (codes "x-amz-part-size") (number part_size) headers
          else headers;
    })
    set_retries (λ n. 0)
    or_raise (find_element_text env.dom wc.written.content (codes "uploadId")) bad_xml

  pub abort_multipart_upload : Bytes → Bytes → Bytes → Action W (Unit {0})
  abort_multipart_upload bucket key uid = do
    send env (record plain_request {
      method = codes "DELETE";
      bucket = bucket;
      key = key;
      params = (codes "uploadId", uid) ∷ [];
    })
    pure tt
