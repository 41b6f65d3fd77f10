-- ===== src/Apps/Examples.antt =====
-- The theorems on the programs at concrete arguments and files.
use s3client.Common.{
  ℕ, ◌+◌, List, [], ◌∷◌, ◌++◌, Bytes, Option, none, some, true, false, if◌then◌else◌, codes,
  same_text, ◌≡◌, refl, arith, All,
}
use s3client.Common.Dict.{Dict}
use s3client.Sign.{is_empty}
use s3client.Text.Split.{split}
use s3client.Text.Ranges.{split_range}
use s3client.Text.Ranges.Pieces.{split_range-split}
use s3client.Text.Toml.Lines.{is_visible, Passes}
use s3client.Text.Toml.Written.{file_text}
use s3client.Client.Request.{S3Credentials}
use s3client.Transfer.Session.{Part, Api, Session}
use s3client.Transfer.Upload.{upload}
use s3client.Apps.{exited, parsed}
use s3client.Apps.Endpoints.{
  EndpointLine, address, remark, empty_line, endpoints_text, addresses, IsLine,
}
use s3client.Apps.Upload.{UploadArgs, upload_exit, named_file, parallel_upload}
use s3client.Apps.Upload.MetaData.{meta_piece, meta_text, meta_dict, AreMeta}
use s3client.Apps.Upload.Files.{default_profile, AreKeys, credentials_name, parallel_upload-files}
use s3client.Apps.Keys.{generate_s3_credentials}
use s3client.Apps.Keys.Range.{IsBetween, IsKey, generate_s3_credentials-IsKey}

split_range-split_example :
    split_range (codes "meta1:value1;meta2:value2;") (codes ";")
    ≡ some (split (codes "meta1:value1;meta2:value2;") (codes ";") none)
split_range-split_example = split_range-split (codes "meta1:value1;meta2:value2;") 59

-- Always the upper bound.
abbrev highest : ℕ → ℕ → ℕ → ℕ × ℕ
highest low high w = (high, w + 1)

highest-IsBetween : IsBetween highest
unfolding IsBetween
highest-IsBetween low high w h = (h, omega arith)

generate_s3_credentials-IsKey_example :
    (access : Bytes) × (secret : Bytes) × ((generate_s3_credentials highest (codes "keys") [] 0).0
      ≡ exited 0 ((access ++ codes "\n") ++ (secret ++ codes "\n")))
    × IsKey 26 18 access
    × IsKey 0 36 secret
generate_s3_credentials-IsKey_example =
    generate_s3_credentials-IsKey highest highest-IsBetween (codes "keys") 0

abbrev two_keys : S3Credentials
two_keys = record { access_key = codes "AK"; secret_key = codes "SK" }

abbrev endpoint_file : List EndpointLine
endpoint_file = remark (codes "hosts") ∷ address (codes "http://a") ∷ empty_line ∷ []

-- A directory of two files; the parts that are sent are kept.
abbrev read_file : List Part → Bytes → Option Bytes
read_file w name =
    if same_text name (codes "ends")
    then some (endpoints_text endpoint_file)
    else some (file_text (default_profile two_keys))

abbrev recording : S3Credentials → Dict Bytes → Api (List Part)
recording keys mm = record {
  random_index = λ w a b. (a, w);
  can_open = λ w name. true;
  file_size = λ w name. 9;
  create = λ w e. (some (codes "id"), w);
  upload_file_part = λ w e uid p. (some (p.number ∷ []), w ++ p ∷ []);
  complete = λ w e uid etags. (some (codes "etag"), w);
  object_size = λ w e. (some 9, w);
  prepare_file = λ w name size. w;
  get_file_part = λ w e p last. (true, w ++ p ∷ []);
}

abbrev upload_args : UploadArgs
upload_args = record {
  config = record {
    bucket = codes "b";
    key = codes "k";
    file = [];
    buffer = none;
    size = 0;
    endpoints = [];
    max_retries = 1;
    jobs = 1;
    parts_per_job = 2;
  };
  keys = record { access_key = []; secret_key = [] };
  credentials_file = [];
  aws_profile = [];
  endpoint = [];
  endpoints_file = codes "ends";
  meta_data = codes "Tag:v";
}

abbrev fresh : Session (List Part)
fresh = record { world = []; retries = 0 }

endpoint_file-IsLine : All IsLine endpoint_file
unfolding Passes is_visible is_empty
endpoint_file-IsLine = (
  (refl, (refl, (refl, (refl, (refl, tt))))),
  ((refl, (refl, (refl, (refl, (refl, (refl, (refl, (refl, (refl, tt))))))))), (tt, tt)),
)

two_keys-AreKeys : AreKeys two_keys
unfolding Passes is_visible is_empty
two_keys-AreKeys = ((refl, (refl, (refl, tt))), (refl, (refl, (refl, tt))))

one_pair-AreMeta : AreMeta ((codes "Tag", codes "v") ∷ [])
unfolding AreMeta
one_pair-AreMeta =
    ((((refl, (refl, (refl, tt))), (refl, (refl, (refl, tt)))), ((refl, tt), (refl, tt))), tt)

no_text : is_empty {A = ℕ} [] ≡ true
unfolding is_empty
no_text = refl

given_meta : codes "Tag:v" ≡ meta_text (codes "Tag", codes "v") []
unfolding meta_text meta_piece
given_meta = refl

home_keys :
    read_file [] (credentials_name (codes "/home") []) ≡ some (file_text (default_profile two_keys))
unfolding credentials_name is_empty same_text
home_keys = refl

listed : read_file [] (codes "ends") ≡ some (endpoints_text endpoint_file)
unfolding same_text
listed = refl

parallel_upload-files_example :
    parallel_upload recording
      (codes "/home")
      (codes "usage")
      read_file
      (parsed false upload_args)
      fresh
    ≡ upload_exit (
        upload
          (recording two_keys (meta_dict ((codes "Tag", codes "v") ∷ []) []))
          (record (named_file upload_args.config) { endpoints = addresses endpoint_file })
          fresh)
parallel_upload-files_example =
    parallel_upload-files recording (codes "/home") (codes "usage") read_file upload_args fresh
      two_keys endpoint_file (codes "Tag", codes "v") [] no_text no_text refl given_meta listed
      home_keys endpoint_file-IsLine two_keys-AreKeys one_pair-AreMeta
