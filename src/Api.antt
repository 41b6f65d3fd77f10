-- ===== src/Api.antt =====
-- `S3Api` of lib/include/s3-api.h and lib/src/api/s3-api.cpp: how a request is configured, sent and
-- checked. What it is built on is the record `Environment`.
pub mod Send
pub mod Objects
pub mod Buckets
pub mod Multipart
pub mod Documents
mod Fixtures
mod Examples
use s3client.Common.{ℕ, List, [], Bytes, Option, none, some, Bool, codes}
use s3client.Common.Dict.{Dict}
use s3client.Http.Client.{WebClient, Network}
use s3client.Sign.{Url, Time}
use s3client.Xml.Dom.{Dom}

pub record ReadBuffer : Type 0 where
  pub size : ℕ
  pub content : Option Bytes

pub data UploadData : Type 0 where
  upload_text : Bytes → UploadData
  upload_buffer : ReadBuffer → UploadData

pub record SendParams : Type 0 where
  pub method : Bytes
  pub bucket : Bytes
  pub key : Bytes
  pub params : Dict Bytes
  pub headers : Dict Bytes
  pub region : Bytes
  pub sign_url : Bytes
  pub payload_hash : Bytes
  pub url_encode_post_params : Bool
  pub upload_data : UploadData

-- The default member values.
abbrev pub plain_request : SendParams
plain_request = record {
  method = codes "GET";
  bucket = [];
  key = [];
  params = [];
  headers = [];
  region = codes "us-east-1";
  sign_url = [];
  payload_hash = [];
  url_encode_post_params = Bool.false;
  upload_data = upload_text [];
}

-- libcurl with the files, the XML library, the parser of URLs, the clock, and whether the build has the
-- debug test of headers.
pub record Environment (W : Type 0) : Type 1 where
  pub net : Network W
  pub dom : Dom
  pub parse_url : Bytes → Url
  pub now : Time
  pub debug : Bool

-- An instance with its web client, the outside world, and the counter `retriesG`.
pub record S3Api (W : Type 0) : Type 0 where
  pub access : Bytes
  pub secret : Bytes
  pub endpoint : Bytes
  pub signing_endpoint : Bytes
  pub web : WebClient
  pub world : W
  pub retries : ℕ

-- `overflow` is the number of a try beyond its `int`, `no_fuel` marks a loop that was given too few tries.
pub data Error : Type 0 where
  not_signed not_sent bad_xml bad_response missing_etag no_file too_small bad_params : Error
  service_error : Bytes → Bytes → Error
  overflow no_fuel : Error

pub data Result (A : Type 0) : Type 0 where
  ok : A → Result A
  err : Error → Result A

abbrev pub Action : Type 0 → Type 0 → Type 0
Action W A = S3Api W → Result A × S3Api W

abbrev pub pure : {W A : Type 0} → A → Action W A
pure a s = (ok a, s)

abbrev pub raise : {W A : Type 0} → Error → Action W A
raise e s = (err e, s)

abbrev pub continued : {W A B : Type 0} → Result A × S3Api W → (A → Action W B) → Result B × S3Api W
continued (ok a, s) f = f a s
continued (err e, s) f = (err e, s)

infixl 5 ◌>>=◌ ◌>>◌
abbrev pub ◌>>=◌ : {W A B : Type 0} → Action W A → (A → Action W B) → Action W B
◌>>=◌ m f s = continued (m s) f

abbrev pub ◌>>◌ : {W A B : Type 0} → Action W A → Action W B → Action W B
m >> k = m >>= λ _. k

abbrev pub or_raise : {W A : Type 0} → Option A → Error → Action W A
or_raise none e s = (err e, s)
or_raise (some a) e s = (ok a, s)

-- The counter `retriesG`.
abbrev pub set_retries : {W : Type 0} → (ℕ → ℕ) → Action W (Unit {0})
set_retries f s = (ok tt, record s { retries = f s.retries })
