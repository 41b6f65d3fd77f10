-- ===== src/Client/Request.antt =====
-- `SendS3Request` and `GetS3Credentials` of lib/src/s3-client.cpp, on the web client of Http/Client.antt.
use s3client.Common.{
  [], ◌++◌, Bytes, Option, none, some, Bool, true, false, if◌then◌else◌, codes, length, same_text,
}
use s3client.Common.Dict.{Dict, lookup}
use s3client.Text.Url.{to_lower, url_encode_map}
use s3client.Text.Params.{parse_params}
use s3client.Text.Toml.{parse_toml}
use s3client.Sign.{Url, Time, is_empty}
use s3client.Sign.Request.{sign_headers}
use s3client.Transfer.Upload.{c_string}
use s3client.Http.Client.{
  WebClient, Network, read_buffer, write_buffer, file_at, set_endpoint, set_path, set_method,
  set_req_parameters, set_headers, set_post_data, set_url_encoded_post_data, set_sink, ssl_verify,
  send_request,
}
use s3client.Http.Uploads.{upload_data_from_buffer, upload_file_whole}

pub record S3ClientConfig : Type 0 where
  pub access_key : Bytes
  pub secret_key : Bytes
  pub endpoint : Bytes
  pub sign_url : Bytes
  pub bucket : Bytes
  pub key : Bytes
  pub params : Dict Bytes
  pub method : Bytes
  pub headers : Dict Bytes
  pub outfile : Bytes
  pub content : Bytes
  pub data_is_file_name : Bool

pub record S3Credentials : Type 0 where
  pub access_key : Bytes
  pub secret_key : Bytes

-- `crash` is a read beyond the end of a buffer.
pub data RequestError : Type 0 where
  not_signed bad_params wrong_method bad_file profile_not_found bad_toml cannot_open : RequestError
  crash : RequestError

pub data Sent (W : Type 0) : Type 0 where
  sent : WebClient → W → Sent W
  refused : RequestError → W → Sent W

-- A `WebClient` as it is constructed.
pub new_client : WebClient
new_client = record {
  options = record {
    url = [];
    http_header = [];
    upload = false;
    no_body = false;
    http_get = false;
    custom_request = none;
    infile_size = 0;
    post_fields = [];
    post_field_size = 0;
    source = read_buffer;
    sink = write_buffer;
    verify_peer = true;
    verify_host = true;
  };
  endpoint = [];
  path = [];
  headers = [];
  params = [];
  method = [];
  response_code = 0;
  url_encoded_post_data = [];
  written = record { offset = 0; content = [] };
  header_buffer = [];
  error_buffer = [];
}

pub request_path : S3ClientConfig → Bytes
request_path args =
    if is_empty args.bucket
    then []
    else codes "/" ++ (args.bucket ++ (if is_empty args.key then [] else codes "/" ++ args.key))

-- The web client before a request is sent. The output file is taken to open.
pub prepared : S3ClientConfig → Dict Bytes → WebClient
prepared args headers =
    let verify = is_empty args.sign_url in
    let c = set_headers headers (
      set_req_parameters args.params (
        set_method args.method 0 (
          set_path (request_path args)
            (set_endpoint args.endpoint (ssl_verify verify verify new_client))))) in
    if is_empty args.outfile then c else set_sink (file_at args.outfile 0) c

module _ {W : Type 0} (net : Network W) where
  pub finished : Bool × (WebClient × W) → Sent W
  finished (done, (c, w)) = sent c w

  -- The upload of a whole file throws if it fails.
  pub file_finished : Bool × (WebClient × W) → Sent W
  file_finished (true, (c, w)) = sent c w
  file_finished (false, (c, w)) = refused bad_file w

  pub send_post : Bytes → WebClient → W → Sent W
  send_post text c w = elim (parse_params text) [
    | none ↦ refused bad_params w
    | some params ↦ elim (url_encode_map params) [
      | none ↦ refused bad_params w
      | some encoded ↦
          finished
            (send_request net (set_method (codes "POST") 0 (set_url_encoded_post_data encoded c)) w)
    ]
  ]

  -- The text of a file, empty if it cannot be read.
  pub file_text : W → Bytes → Bytes
  file_text w name = elim (net.map_file w name 0 (net.file_size w name)) [ none ↦ [] | some t ↦ t ]

  -- A buffer is read up to its first zero byte, which is to be there. The method `post` of a file is compared as it is given.
  pub send_file : S3ClientConfig → WebClient → W → Sent W
  send_file args c w =
      let name = c_string args.content in
      if same_text (to_lower args.method) (codes "put")
      then elim name [
        | none ↦ refused crash w
        | some text ↦ file_finished (upload_file_whole net text 0 c w)
      ]
      else if same_text args.method (codes "post")
      then elim name [
        | none ↦ refused crash w
        | some text ↦
            finished (
              send_request net (set_post_data (file_text w text) (set_method (codes "POST") 0 c)) w)
      ]
      else refused wrong_method w

  pub send_prepared : S3ClientConfig → WebClient → W → Sent W
  send_prepared args c w =
      if is_empty args.content
      then finished (send_request net c w)
      else if args.data_is_file_name
      then send_file args c w
      else if same_text (to_lower args.method) (codes "post")
      then elim (c_string args.content) [ none ↦ refused crash w | some text ↦ send_post text c w ]
      else finished (upload_data_from_buffer net args.content 0 (length args.content) c w)

  -- `SendS3Request`, with the parser of URLs, the clock and the debug test of the headers.
  -- The region is that which the configuration of `SignHeaders` starts with (lib/include/aws_sign.h).
  pub send_s3_request : (Bytes → Url) → Time → Bool → S3ClientConfig → W → Sent W
  send_s3_request parse_url now debug args w =
      let sign_url = if is_empty args.sign_url then args.endpoint else args.sign_url in
      let headers =
        if is_empty args.access_key
        then some args.headers
        else sign_headers parse_url now debug (record {
          access = args.access_key;
          secret = args.secret_key;
          endpoint = sign_url;
          method = args.method;
          bucket = args.bucket;
          key = args.key;
          payload_hash = [];
          parameters = args.params;
          headers = args.headers;
          region = codes "us-east";
          service = codes "s3";
          dates = record { time_stamp = []; date_stamp = [] };
        }) in
      elim headers [ none ↦ refused not_signed w | some h ↦ send_prepared args (prepared args h) w ]

pub data Credentials : Type 0 where
  found : S3Credentials → Credentials
  missing : RequestError → Credentials

-- A key of a profile, which `operator[]` makes with an empty value if it is missing.
unfoldable pub profile_key : Bytes → Dict Bytes → Bytes
profile_key key profile = elim (lookup key profile) [ none ↦ [] | some v ↦ v ]

-- `GetS3Credentials`, with the home directory, and the texts of the files that can be opened.
unfoldable pub get_s3_credentials : Bytes → (Bytes → Option Bytes) → Bytes → Bytes → Credentials
get_s3_credentials home read file_name profile =
    let name = if is_empty file_name then home ++ codes "/.aws/credentials" else file_name in
    let aws_profile = if is_empty profile then codes "default" else profile in
    elim (read name) [
      | none ↦ missing cannot_open
      | some text ↦ elim (parse_toml text) [
        | none ↦ missing bad_toml
        | some toml ↦ elim (lookup aws_profile toml) [
          | none ↦ missing profile_not_found
          | some p ↦ found (record {
            access_key = profile_key (codes "aws_access_key_id") p;
            secret_key = profile_key (codes "aws_secret_access_key") p;
          })
        ]
      ]
    ]
