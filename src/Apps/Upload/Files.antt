-- ===== src/Apps/Upload/Files.antt =====
-- The whole of `parallel_upload`: files of endpoints and of credentials, metadata, and the transfer.
use s3client.Common.{
  ℕ, List, [], ◌∷◌, ◌++◌, Bytes, Option, some, Bool, true, false, ◌&&◌, arith, if◌then◌else◌, codes,
  ◌≡◌, refl, All, Bool-cases,
}
use mathlib.Core.Logic.{inl, inr}
use s3client.Common.Dict.{Dict, insert, assign, lookup, lex_lt}
use s3client.Sign.{is_empty}
use s3client.Text.Url.{is_digit, is_upper, is_lower}
use s3client.Text.Headers.{is_word}
use s3client.Text.Toml.Lines.{is_visible, is_name, Passes}
use s3client.Text.Toml.Written.{
  Section, file_text, AreSections, ArePairs, assign_all, read_sections, parse_toml-file_text,
}
use s3client.Client.Request.{S3Credentials, found, profile_key, get_s3_credentials}
use s3client.Transfer.Session.{Api, Session}
use s3client.Transfer.Upload.{upload}
use s3client.Apps.{parsed, endpoints_of, credentials_of}
use s3client.Apps.Endpoints.{
  EndpointLine, endpoints_text, addresses, IsLine, endpoint_lines-addresses,
}
use s3client.Apps.Upload.{UploadArgs, upload_exit, named_file, start_upload, parallel_upload}
use s3client.Apps.Upload.MetaData.{meta_text, meta_dict, AreMeta, meta_data_of-meta_text}

-- The file with the keys of the default profile.
unfoldable pub default_profile : S3Credentials → List Section
default_profile keys =
    (
      codes "default",
      (codes "aws_access_key_id", keys.access_key)
          ∷ (codes "aws_secret_access_key", keys.secret_key)
          ∷ [],
    )
    ∷ []

abbrev pub AreKeys : S3Credentials → Type 0
AreKeys keys = Passes is_visible keys.access_key × Passes is_visible keys.secret_key

passes : (ℕ → Bool) → Bytes → Bool
passes p [] = true
passes p (c ∷ s) = p c && passes p s

passes-All : (p : ℕ → Bool) (s : Bytes) → passes p s ≡ true → All (λ c. p c ≡ true) s
unfolding passes
passes-All p [] h = tt
passes-All p (c ∷ s) h = (ground arith, passes-All p s (ground arith))

default_name : All (λ c. is_name c ≡ true) (codes "default")
unfolding passes is_name is_visible
default_name = passes-All is_name (codes "default") refl

key_names :
    All (λ c. is_word c ≡ true) (codes "aws_access_key_id")
    × All (λ c. is_word c ≡ true) (codes "aws_secret_access_key")
unfolding passes is_word is_digit is_upper is_lower
key_names = (
  passes-All is_word (codes "aws_access_key_id") refl,
  passes-All is_word (codes "aws_secret_access_key") refl,
)

default_profile-AreSections :
    (keys : S3Credentials) → AreKeys keys → AreSections (default_profile keys)
unfolding default_profile AreSections ArePairs Passes is_empty
default_profile-AreSections keys (ha, hs) =
    (((refl, default_name), (((refl, key_names.0), ha), (((refl, key_names.1), hs), tt))), tt)

get_s3_credentials-file :
    (home name : Bytes) (read : Bytes → Option Bytes) (keys : S3Credentials)
    → AreKeys keys
    → is_empty name ≡ false
    → read name ≡ some (file_text (default_profile keys))
    → get_s3_credentials home read name [] ≡ found keys
unfolding get_s3_credentials default_profile profile_key read_sections assign_all insert assign
    lookup lex_lt
get_s3_credentials-file home name read keys h hn hr =
    let no_profile : is_empty {A = ℕ} [] ≡ true = unfold is_empty in refl in
    rw
      (
        get_s3_credentials,
        hn,
        hr,
        parse_toml-file_text (codes "default") _ [] (default_profile-AreSections keys h),
        no_profile,
      )
      refl

-- The file given, or the one of the home directory.
unfoldable pub credentials_name : Bytes → Bytes → Bytes
credentials_name home credentials_file =
    if is_empty credentials_file then home ++ codes "/.aws/credentials" else credentials_file

home_file : (home : Bytes) → is_empty (home ++ codes "/.aws/credentials") ≡ false
unfolding is_empty
home_file [] = refl
home_file (c ∷ home) = refl

some_name : (home file : Bytes) → is_empty (credentials_name home file) ≡ false
unfolding credentials_name
some_name home file = elim (Bool-cases (is_empty file)) [
  | inl e ↦ rw e (home_file home)
  | inr e ↦ rw (e, e) refl
]

credentials_of-file :
    (home : Bytes) (read : Bytes → Option Bytes) (given keys : S3Credentials) (file : Bytes)
    → AreKeys keys
    → is_empty given.access_key ≡ true
    → read (credentials_name home file) ≡ some (file_text (default_profile keys))
    → credentials_of home read given file [] ≡ found keys
unfolding credentials_of credentials_name
credentials_of-file home read given keys file h e hr =
    rw e (
      get_s3_credentials-file home (credentials_name home file) read keys h (some_name home file)
        hr)

endpoints_of-file :
    (read : Bytes → Option Bytes) (endpoint file : Bytes) (ls : List EndpointLine)
    → is_empty endpoint ≡ true
    → read file ≡ some (endpoints_text ls)
    → All IsLine ls
    → endpoints_of read endpoint file ≡ some (addresses ls)
unfolding endpoints_of
endpoints_of-file read endpoint file ls he hr h =
    rw (endpoints_of, he, hr, endpoint_lines-addresses ls h) refl

module _ {W : Type 0} (connect : S3Credentials → Dict Bytes → Api W) (home usage : Bytes)
    (read : W → Bytes → Option Bytes) where
  -- Given neither an endpoint nor an access key nor a profile, `parallel_upload` takes the endpoints from
  -- the file of endpoints, if it has one on each line that is no remark and not empty, the keys from the
  -- default profile of the file of credentials, which is that of the home directory if none is given, and
  -- the names and values of the metadata, and then does what `Upload` does with them.
  pub parallel_upload-files :
      (args : UploadArgs) (s : Session W) (keys : S3Credentials) (ls : List EndpointLine)
      (p : Bytes × Bytes) (ps : List (Bytes × Bytes))
      → is_empty args.endpoint ≡ true
      → is_empty args.keys.access_key ≡ true
      → args.aws_profile ≡ []
      → args.meta_data ≡ meta_text p ps
      → read s.world args.endpoints_file ≡ some (endpoints_text ls)
      → read s.world (credentials_name home args.credentials_file)
        ≡ some (file_text (default_profile keys))
      → All IsLine ls
      → AreKeys keys
      → AreMeta (p ∷ ps)
      → parallel_upload connect home usage read (parsed false args) s
        ≡ upload_exit (
            upload
              (connect keys (meta_dict (p ∷ ps) []))
              (record (named_file args.config) { endpoints = addresses ls })
              s)
  unfolding parallel_upload start_upload
  parallel_upload-files args s keys ls p ps he hk hp hm rl rk lines valid meta =
      rw
        (
          parallel_upload,
          endpoints_of-file (read s.world) args.endpoint args.endpoints_file ls he rl lines,
          start_upload,
          hp,
          credentials_of-file home (read s.world) args.keys keys args.credentials_file valid hk rk,
          hm,
          meta_data_of-meta_text p ps meta,
        )
        refl
