-- ===== src/Apps/Upload.antt =====
-- `main` of apps/parallel_upload.cpp.
pub mod MetaData
pub mod Files
use s3client.Common.{
  ℕ, List, [], ◌∷◌, ◌++◌, Bytes, Option, none, some, Bool, true, false, if◌then◌else◌, codes,
}
use s3client.Common.Dict.{Dict, assign}
use s3client.Hash.Utility.{◌>>=◌}
use s3client.Text.Url.{to_lower}
use s3client.Text.Ranges.{split_begin, next_split, is_end, split_value, split_range}
use s3client.Sign.{is_empty}
use s3client.Client.Request.{S3Credentials, found, missing}
use s3client.Transfer.Session.{Config, Error, Outcome, ok, thrown, Api, Session}
use s3client.Transfer.Upload.{upload}
use s3client.Apps.{Exit, exited, terminated, Parsed, refused, parsed, endpoints_of, credentials_of}

pub record UploadArgs : Type 0 where
  pub config : Config
  pub keys : S3Credentials
  pub credentials_file : Bytes
  pub aws_profile : Bytes
  pub endpoint : Bytes
  pub endpoints_file : Bytes
  pub meta_data : Bytes

-- One piece: what stands before and behind its first `:`. What stands behind a second is not read.
unfoldable pub meta_entry : Bytes → Option (Bytes × Bytes)
meta_entry piece =
    let s = split_begin piece (codes ":") in
    split_value s >>= λ k.
    if is_end (next_split s) then none else split_value (next_split s) >>= λ v. some (k, v)

unfoldable pub meta_entries : List Bytes → Dict Bytes → Option (Dict Bytes)
meta_entries [] mm = some mm
meta_entries (piece ∷ pieces) mm = meta_entry piece >>= λ e.
    meta_entries pieces (assign (codes "x-amz-meta-" ++ to_lower e.0) e.1 mm)

unfoldable pub meta_data_of : Bytes → Option (Dict Bytes)
meta_data_of text =
    if is_empty text
    then some []
    else split_range text (codes ";") >>= λ pieces. meta_entries pieces []

-- A division by zero is a signal and no exception; the model's lack of fuel is no outcome of the program.
unfoldable pub upload_exit : {W : Type 0} → Outcome Bytes × Session W → Exit × Session W
upload_exit (ok etag, s) = (exited 0 etag, s)
upload_exit (thrown Error.crash, s) = (terminated, s)
upload_exit (thrown e, s) = (exited 1 [], s)

unfoldable pub named_file : Config → Config
named_file c = record c { file = if is_empty c.file then c.key else c.file }

-- The connection is made from the keys and the metadata that the transfer is given.
module _ {W : Type 0} (connect : S3Credentials → Dict Bytes → Api W) (home usage : Bytes)
    (read : W → Bytes → Option Bytes) where
  unfoldable pub start_upload : UploadArgs → List Bytes → Session W → Exit × Session W
  start_upload args endpoints s =
      let cfg = record (named_file args.config) { endpoints = endpoints } in
      elim (credentials_of home (read s.world) args.keys args.credentials_file args.aws_profile) [
        | missing e ↦ (exited 1 [], s)
        | found keys ↦ elim (meta_data_of args.meta_data) [
          | none ↦ (exited 1 [], s)
          | some mm ↦ upload_exit (upload (connect keys mm) cfg s)
        ]
      ]

  -- With neither an endpoint nor a file of endpoints a message is written, and the file is read.
  unfoldable pub parallel_upload : Parsed UploadArgs → Session W → Exit × Session W
  parallel_upload refused s = (exited 1 [], s)
  parallel_upload (parsed true args) s = (exited 0 usage, s)
  parallel_upload (parsed false args) s =
      elim (endpoints_of (read s.world) args.endpoint args.endpoints_file) [
        | none ↦ (exited 1 [], s)
        | some endpoints ↦ start_upload args endpoints s
      ]
