-- ===== src/Apps/Presign.antt =====
-- `main` of apps/presign_url.cpp. It catches no exception.
use s3client.Common.{[], Bytes, Option, none, some, Bool, true, false, if◌then◌else◌, take}
use s3client.Hash.Utility.{◌>>=◌}
use s3client.Text.Params.{parse_params, parse_headers}
use s3client.Sign.{Url, Time, S3SignUrlConfig, is_empty}
use s3client.Sign.Request.{signed_url}
use s3client.Apps.{Exit, exited, terminated, Parsed, refused, parsed}

pub record PresignArgs : Type 0 where
  pub config : S3SignUrlConfig
  pub headers : Bytes
  pub params : Bytes
  pub date_time : Bytes

unfoldable pub dates_of : PresignArgs → Time
dates_of args =
    if is_empty args.date_time
    then args.config.dates
    else record { time_stamp = args.date_time; date_stamp = take 8 args.date_time }

unfoldable pub url_of : (Bytes → Url) → Time → Bool → PresignArgs → Option Bytes
url_of parse_url now debug args = parse_headers args.headers >>= λ headers.
    parse_params args.params >>= λ params.
    signed_url parse_url now debug
      (record args.config { headers = headers; params = params; dates = dates_of args })

unfoldable pub url_exit : Option Bytes → Exit
url_exit none = terminated
url_exit (some url) = exited 0 url

unfoldable pub presign_url : (Bytes → Url) → Time → Bool → Bytes → Parsed PresignArgs → Exit
presign_url parse_url now debug usage refused = exited 1 []
presign_url parse_url now debug usage (parsed true args) = exited 0 usage
presign_url parse_url now debug usage (parsed false args) =
    url_exit (url_of parse_url now debug args)
