-- ===== src/Api/Send.antt =====
-- `Config`, `Send`, `HandleError` and `Clear`.
pub mod Stale
pub mod Lost
use s3client.Common.{
  ℕ, [], ◌∷◌, ◌++◌, Bytes, Option, none, some, Bool, true, false, not, ◌&&◌, ◌==◌, leb, ltb,
  if◌then◌else◌, codes, same_text, length,
}
use s3client.Common.Dict.{Dict}
use s3client.Text.Url.{to_lower, url_encode_map}
use s3client.Text.Params.{parse_params}
use s3client.Sign.{ComputeSignatureConfig, is_empty}
use s3client.Sign.Request.{sign_headers}
use s3client.Http.Client.{
  WebClient, set_endpoint, set_path, set_method, set_req_parameters, set_headers, set_post_data,
  set_url_encoded_post_data, clear_buffers, reset_rw_functions, send_request,
}
use s3client.Http.Uploads.{upload_data_from_buffer}
use s3client.Xml.Visitors.{find_element_text}
use s3client.Api.{
  ReadBuffer, SendParams, UploadData, upload_text, upload_buffer, Environment, S3Api, Error,
  not_signed, not_sent, bad_xml, bad_params, service_error, Result, ok, err, Action, pure, raise,
  or_raise, ◌>>=◌, ◌>>◌,
}

-- `Clear`. The braces `{{}}` make a map with one empty name.
unfoldable pub clear : WebClient → WebClient
clear c = reset_rw_functions (
    clear_buffers (
      set_post_data []
        (set_req_parameters (([], []) ∷ []) (set_headers (([], []) ∷ []) (set_path [] c)))))

unfoldable pub path_of : SendParams → Bytes
path_of p =
    if is_empty p.bucket
    then []
    else codes "/" ++ (p.bucket ++ (if is_empty p.key then [] else codes "/" ++ p.key))

-- The web client that `Config` leaves.
unfoldable pub configured : Bytes → SendParams → Dict Bytes → WebClient → WebClient
configured endpoint p signed c = set_headers signed (
    set_req_parameters p.params
      (set_method p.method 0 (set_path (path_of p) (set_endpoint endpoint (clear c)))))

unfoldable pub has_data : UploadData → Bool
has_data (upload_text t) = not (is_empty t)
has_data (upload_buffer b) = elim (b.content) [ none ↦ false | some content ↦ ltb 0 b.size ]

module _ {W : Type 0} (env : Environment W) where
  -- The headers of the request: none if there are no credentials.
  unfoldable pub request_headers : S3Api W → SendParams → Option (Dict Bytes)
  request_headers s p =
      if is_empty s.access
      then some []
      else sign_headers env.parse_url env.now env.debug (record {
        access = s.access;
        secret = s.secret;
        endpoint = s.endpoint;
        method = p.method;
        bucket = p.bucket;
        key = p.key;
        payload_hash = p.payload_hash;
        parameters = p.params;
        headers = p.headers;
        region = p.region;
        service = codes "s3";
        dates = record { time_stamp = []; date_stamp = [] };
      })

  -- `Config`, with the signed headers if they are computed.
  unfoldable pub config_with : Option (Dict Bytes) → SendParams → Action W (Unit {0})
  config_with none p s = (err not_signed, s)
  config_with (some signed) p s = (ok tt, record s { web = configured s.endpoint p signed s.web })

  unfoldable pub config : SendParams → Action W (Unit {0})
  config p s = config_with (request_headers s p) p s

  -- `HandleError`, which reads the status of the last response.
  unfoldable pub handle_error : Action W (Unit {0})
  handle_error s =
      if s.web.response_code == 0
      then (err not_sent, s)
      else if leb 400 s.web.response_code
      then elim (find_element_text env.dom s.web.written.content (codes "Code")) [
        | none ↦ (err bad_xml, s)
        | some code ↦ elim (find_element_text env.dom s.web.written.content (codes "Message")) [
          | none ↦ (err bad_xml, s)
          | some message ↦ (err (service_error code message), s)
        ]
      ]
      else (ok tt, s)

  -- A call of the web client, whose result is not read.
  abbrev pub by_client : (WebClient → W → Bool × (WebClient × W)) → Action W Bool
  by_client f s = let (done, (c, w)) = f s.web s.world in (ok done, record s { web = c; world = w })

  abbrev pub on_client : (WebClient → WebClient) → Action W (Unit {0})
  on_client f s = (ok tt, record s { web = f s.web })

  -- The data of a request, sent by its method; with other methods nothing is sent.
  unfoldable pub put_data : UploadData → Action W Bool
  put_data (upload_text t) = by_client (upload_data_from_buffer env.net t 0 (length t))
  put_data (upload_buffer b) = elim (b.content) [
    | none ↦ pure false
    | some content ↦ by_client (upload_data_from_buffer env.net content 0 b.size)
  ]

  unfoldable pub post_data : Bool → UploadData → Action W (Unit {0})
  post_data encode (upload_buffer b) = pure tt
  post_data false (upload_text t) = on_client (set_post_data t)
  post_data true (upload_text t) = do
    params ← or_raise (parse_params t) bad_params
    encoded ← or_raise (url_encode_map params) bad_params
    on_client (set_url_encoded_post_data encoded)

  unfoldable pub send_data : SendParams → Action W Bool
  send_data p =
      let posted : Action W Bool =
        post_data p.url_encode_post_params p.upload_data >> by_client (send_request env.net) in
      if same_text (to_lower p.method) (codes "put")
      then put_data p.upload_data
      else if same_text (to_lower p.method) (codes "post")
      then posted
      else pure false

  -- `Send`, which returns the web client.
  unfoldable pub send : SendParams → Action W WebClient
  send p = do
    config p
    if has_data p.upload_data then send_data p else by_client (send_request env.net)
    handle_error
    λ s. (ok s.web, s)
