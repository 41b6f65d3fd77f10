-- ===== src/Apps.antt =====
-- The programs of apps/: what their `main` functions do with the arguments that the option parser
-- leaves. What they write to the standard error is not modelled.
pub mod Upload
pub mod Download
pub mod Request
pub mod Presign
pub mod Keys
pub mod Endpoints
mod Examples
use s3client.Common.{
  ℕ, List, [], ◌∷◌, ◌++◌, Bytes, Option, none, some, Bool, true, false, ◌==◌, ◌||◌, if◌then◌else◌,
  codes,
}
use s3client.Sign.{is_empty}
use s3client.Text.Toml.{trim_line, lines_from}
use s3client.Client.Request.{S3Credentials, Credentials, found, missing, get_s3_credentials}

-- The exit status with what was written to the standard output, or an abnormal end.
pub data Exit : Type 0 where
  exited : ℕ → Bytes → Exit
  terminated : Exit

-- What `lyra` makes of the command line: the arguments and whether help is asked for.
pub data Parsed (A : Type 0) : Type 0 where
  refused : Parsed A
  parsed : Bool → A → Parsed A

unfoldable pub starts_comment : Bytes → Bool
starts_comment [] = false
starts_comment (c ∷ s) = c == 35

-- The loop over the lines of the file of endpoints.
unfoldable pub endpoint_lines : List Bytes → List Bytes
endpoint_lines [] = []
endpoint_lines (line ∷ lines) =
    let rest = endpoint_lines lines in
    let t = trim_line line in if is_empty t || starts_comment t then rest else t ∷ rest

-- The endpoint given, or those of the file with its text; none if that cannot be read.
unfoldable pub endpoints_of : (Bytes → Option Bytes) → Bytes → Bytes → Option (List Bytes)
endpoints_of read endpoint endpoints_file =
    if is_empty endpoint
    then (elim (read endpoints_file) [
      | none ↦ none
      | some text ↦ some (endpoint_lines (lines_from [] text))
    ])
    else some (endpoint ∷ [])

-- The keys given, or those of a profile if one of them is empty.
unfoldable pub credentials_of :
    Bytes → (Bytes → Option Bytes) → S3Credentials → Bytes → Bytes → Credentials
credentials_of home read given credentials_file aws_profile =
    let name =
      if is_empty credentials_file then home ++ codes "/.aws/credentials" else credentials_file in
    if is_empty given.access_key || is_empty given.secret_key
    then get_s3_credentials home read name aws_profile
    else found given
