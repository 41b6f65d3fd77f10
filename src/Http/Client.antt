-- ===== src/Http/Client.antt =====
-- `WebClient` of lib/src/webclient.cpp. Its `CURL` handle is the record of the options that the code
-- sets; setting one does not fail. What libcurl does with them is the parameter `Network`.
pub mod Method
use s3client.Common.{
  ℕ, ◌+◌, List, [], ◌∷◌, ◌++◌, Bytes, Option, none, some, Bool, true, false, not, ◌&&◌, ◌||◌, ltb,
  leb, ◌==◌, if◌then◌else◌, length, codes, same_text,
}
use s3client.Common.Dict.{Dict}
use s3client.Sign.{is_empty, is_prefix}
use s3client.Text.Url.{to_upper, url_encode, url_encode_map}
use s3client.Http.Buffers.{Buffer, MemReadBuffer, writer, header_writer, write_all}

-- Where the body of a request comes from.
pub data Source : Type 0 where
  read_buffer : Source
  memory : MemReadBuffer → Source
  file_part : Bytes → ℕ → ℕ → Source

-- Where the body of a response goes to.
pub data Sink : Type 0 where
  write_buffer : Sink
  file_at : Bytes → ℕ → Sink

pub record Options : Type 0 where
  pub url : Bytes
  pub http_header : List Bytes
  pub upload : Bool
  pub no_body : Bool
  pub http_get : Bool
  pub custom_request : Option Bytes
  pub infile_size : ℕ
  pub post_fields : Bytes
  pub post_field_size : ℕ
  pub source : Source
  pub sink : Sink
  pub verify_peer : Bool
  pub verify_host : Bool

pub record WebClient : Type 0 where
  pub options : Options
  pub endpoint : Bytes
  pub path : Bytes
  pub headers : Dict Bytes
  pub params : Dict Bytes
  pub method : Bytes
  pub response_code : ℕ
  pub url_encoded_post_data : Bytes
  pub written : Buffer
  pub header_buffer : Bytes
  pub error_buffer : Bytes

-- A `CURLcode`, and the codes that `Status` tells apart.
pub data CurlCode : Type 0 where
  ok send_error failed : CurlCode

-- What a request came to: its code, the text of the error, the status of the response, and the blocks
-- of its headers and of its body.
pub record Reply : Type 0 where
  pub result : CurlCode
  pub error : Bytes
  pub status : ℕ
  pub header_blocks : List Bytes
  pub body_blocks : List Bytes

pub record Network (W : Type 0) : Type 0 where
  pub perform : W → Options → Reply × W
  pub file_size : W → Bytes → ℕ
  pub can_open : W → Bytes → Bool
  pub map_file : W → Bytes → ℕ → ℕ → Option Bytes
  pub write_file : W → Bytes → ℕ → List Bytes → W

-- `err.find(text) != npos`.
pub contains : Bytes → Bytes → Bool
contains text [] = is_empty text
contains text (c ∷ s) = is_prefix text (c ∷ s) || contains text s

-- `Status`: a broken pipe counts as success.
unfoldable pub status : CurlCode → Bytes → Bool
status ok error = true
status send_error error = contains (codes "32") error || contains (codes "PIPE") (to_upper error)
status failed error = false

unfoldable pub set_url : Bytes → WebClient → WebClient
set_url url c = record c { options = record c.options { url = url } }

-- `BuildURL`; the encoding of parameters that are not empty does not fail.
unfoldable pub query_text : Dict Bytes → Bytes
query_text [] = []
query_text (p ∷ ps) = elim (url_encode_map (p ∷ ps)) [ none ↦ [] | some q ↦ codes "?" ++ q ]

unfoldable pub build_url : WebClient → WebClient
build_url c = set_url (c.endpoint ++ (c.path ++ query_text c.params)) c

unfoldable pub set_endpoint : Bytes → WebClient → WebClient
set_endpoint endpoint c = build_url (record c { endpoint = endpoint })

unfoldable pub set_path : Bytes → WebClient → WebClient
set_path path c = build_url (record c { path = path })

unfoldable pub set_req_parameters : Dict Bytes → WebClient → WebClient
set_req_parameters params c = build_url (record c { params = params })

unfoldable pub header_list : Dict Bytes → List Bytes
header_list [] = []
header_list ((k, v) ∷ m) = (k ++ (codes ": " ++ v)) ∷ header_list m

unfoldable pub set_headers : Dict Bytes → WebClient → WebClient
set_headers headers c = record c {
  headers = headers;
  options = record c.options { http_header = header_list headers };
}

-- The options of `SetMethod`. The tests of HEAD, DELETE and POST compare the method as it is given, the
-- others its upper case.
unfoldable pub method_options : Bytes → ℕ → Bytes → Options → Options
method_options method size post o =
    if same_text (to_upper method) (codes "GET")
    then record o { upload = false; no_body = false; http_get = true }
    else if same_text method (codes "HEAD")
    then record o { upload = false; no_body = true; custom_request = some (codes "HEAD") }
    else if same_text method (codes "DELETE")
    then record o { upload = false; custom_request = some (codes "DELETE") }
    else if same_text method (codes "POST")
    then record o {
      upload = false;
      custom_request = some (codes "POST");
      post_field_size = length post;
      post_fields = post;
    }
    else if same_text (to_upper method) (codes "PUT")
    then record o { upload = true; infile_size = size }
    else o

unfoldable pub set_method : Bytes → ℕ → WebClient → WebClient
set_method method size c = record c {
  method = to_upper method;
  options = method_options method size c.url_encoded_post_data c.options;
}

unfoldable pub set_post_data : Bytes → WebClient → WebClient
set_post_data post c = record c {
  options = record c.options { post_field_size = length post; post_fields = post };
}

unfoldable pub set_url_encoded_post_data : Bytes → WebClient → WebClient
set_url_encoded_post_data encoded c =
    set_post_data encoded (record c { url_encoded_post_data = encoded })

unfoldable pub clear_buffers : WebClient → WebClient
clear_buffers c = record c { written = record { offset = 0; content = [] }; header_buffer = [] }

unfoldable pub reset_rw_functions : WebClient → WebClient
reset_rw_functions c = record c {
  options = record c.options { source = read_buffer; sink = write_buffer };
}

unfoldable pub set_source : Source → WebClient → WebClient
set_source source c = record c { options = record c.options { source = source } }

unfoldable pub set_sink : Sink → WebClient → WebClient
set_sink sink c = record c { options = record c.options { sink = sink } }

unfoldable pub ssl_verify : Bool → Bool → WebClient → WebClient
ssl_verify peer host c = record c {
  options = record c.options { verify_peer = peer; verify_host = host };
}

unfoldable pub header_text : List Bytes → Bytes → Bytes
header_text [] content = content
header_text (block ∷ blocks) content = header_text blocks (header_writer block content)

module _ {W : Type 0} (net : Network W) where
  -- What the callbacks do with a reply.
  unfoldable pub receive_body : Sink → List Bytes → WebClient → W → WebClient × W
  receive_body write_buffer blocks c w = (record c { written = write_all blocks c.written }, w)
  receive_body (file_at name offset) blocks c w = (c, net.write_file w name offset blocks)

  unfoldable pub receive : Reply → WebClient → W → WebClient × W
  receive r c w =
      receive_body c.options.sink r.body_blocks
        (record c {
          response_code = r.status;
          header_buffer = header_text r.header_blocks c.header_buffer;
          error_buffer = r.error;
        })
        w

  -- `Send`.
  unfoldable pub send_request : WebClient → W → Bool × (WebClient × W)
  send_request c w =
      let (r, w') = net.perform w c.options in (status r.result r.error, receive r c w')
