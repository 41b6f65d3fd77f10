-- ===== src/Apps/Request.antt =====
-- `main` of apps/s3-client.cpp.
use s3client.Common.{
  [], ◌∷◌, ◌++◌, Bytes, Option, none, some, Bool, true, false, if◌then◌else◌, codes,
}
use s3client.Hash.Utility.{◌>>=◌}
use s3client.Text.Params.{parse_params, parse_headers}
use s3client.Sign.{Url, Time, is_empty, to_string, ℤ}
use s3client.Http.Client.{Network, WebClient}
use s3client.Client.Request.{S3ClientConfig, Sent, sent, refused, send_s3_request}
use s3client.Apps.{Exit, exited, Parsed, parsed}
use s3client.Apps as Apps

pub record ClientArgs : Type 0 where
  pub config : S3ClientConfig
  pub content : Bytes
  pub params : Bytes
  pub headers : Bytes

-- The name of a file is ended by a zero byte.
unfoldable pub content_of : ClientArgs → Bytes
content_of args =
    if is_empty args.content
    then args.config.content
    else if args.config.data_is_file_name
    then args.config.content ++ (args.content ++ 0 ∷ [])
    else args.config.content ++ args.content

unfoldable pub config_of : ClientArgs → Option S3ClientConfig
config_of args =
    (if is_empty args.params then some args.config.params else parse_params args.params)
    >>= λ params.
        (if is_empty args.headers then some args.config.headers else parse_headers args.headers)
        >>= λ headers.
            some
              (record args.config { params = params; headers = headers; content = content_of args })

-- The status, the body and the headers of the response.
unfoldable pub report : WebClient → Bytes
report req =
    codes "Status: "
    ++ (to_string (ℤ.pos req.response_code)
        ++ (codes "\n\n"
            ++ (req.written.content ++ (codes "\n\n" ++ (req.header_buffer ++ codes "\n")))))

unfoldable pub client_exit : {W : Type 0} → Sent W → Exit × W
client_exit (sent req w) = (exited 0 (report req), w)
client_exit (refused e w) = (exited 1 [], w)

module _ {W : Type 0} (net : Network W) (parse_url : Bytes → Url) (now : Time) (debug : Bool)
    (usage : Bytes) where
  unfoldable pub s3_client : Parsed ClientArgs → W → Exit × W
  s3_client Apps.refused w = (exited 1 [], w)
  s3_client (parsed true args) w = (exited 0 usage, w)
  s3_client (parsed false args) w = elim (config_of args) [
    | none ↦ (exited 1 [], w)
    | some cfg ↦ client_exit (send_s3_request net parse_url now debug cfg w)
  ]
