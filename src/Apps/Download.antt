-- ===== src/Apps/Download.antt =====
-- `main` of apps/parallel_download.cpp.
use s3client.Common.{List, [], Bytes, Option, none, some, Bool, not, ◌&&◌, if◌then◌else◌}
use s3client.Sign.{is_empty}
use s3client.Client.Request.{S3Credentials, found, missing}
use s3client.Transfer.Session.{Config, Error, Outcome, ok, thrown, Api, Session}
use s3client.Transfer.Download.{download}
use s3client.Apps.{Exit, exited, terminated, Parsed, refused, parsed, endpoints_of, credentials_of}
use s3client.Apps.Upload.{named_file}

pub record DownloadArgs : Type 0 where
  pub config : Config
  pub keys : S3Credentials
  pub credentials_file : Bytes
  pub aws_profile : Bytes
  pub endpoint : Bytes
  pub endpoints_file : Bytes
  pub overwrite : Bool

unfoldable pub download_exit : {W : Type 0} → Outcome (Unit {0}) × Session W → Exit × Session W
download_exit (ok done, s) = (exited 0 [], s)
download_exit (thrown Error.crash, s) = (terminated, s)
download_exit (thrown e, s) = (exited 1 [], s)

module _ {W : Type 0} (connect : S3Credentials → Api W) (home : Bytes)
    (read : W → Bytes → Option Bytes) (file_exists : W → Bytes → Bool) where
  unfoldable pub start_download : DownloadArgs → List Bytes → Session W → Exit × Session W
  start_download args endpoints s =
      let cfg = record (named_file args.config) { endpoints = endpoints } in
      elim (credentials_of home (read s.world) args.keys args.credentials_file args.aws_profile) [
        | missing e ↦ (exited 1 [], s)
        | found keys ↦ download_exit (download (connect keys) cfg s)
      ]

  unfoldable pub download_endpoints : DownloadArgs → Session W → Option (List Bytes)
  download_endpoints args s =
      if is_empty args.endpoint && is_empty args.endpoints_file
      then none
      else endpoints_of (read s.world) args.endpoint args.endpoints_file

  -- Whether help is asked for is tested before the arguments are parsed, when it is not yet known.
  unfoldable pub parallel_download : Parsed DownloadArgs → Session W → Exit × Session W
  parallel_download refused s = (exited 1 [], s)
  parallel_download (parsed help args) s =
      let present = file_exists s.world (named_file args.config).file in
      if present && not args.overwrite
      then (exited 1 [], s)
      else (elim (download_endpoints args s) [
        | none ↦ (exited 1 [], s)
        | some endpoints ↦ start_download args endpoints s
      ])
