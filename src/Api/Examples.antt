-- ===== src/Api/Examples.antt =====
-- The theorems on requests at an instance without credentials, on a network that answers as it is told.
use s3client.Common.{same_text, ℕ, ◌+◌, [], Bytes, some, true, codes, ◌≡◌, refl, arith}
use s3client.Sign.{is_empty}
use s3client.Api.{SendParams, plain_request, Environment, S3Api, no_fuel, Result, ok, err, Action}
use s3client.Api.Send.{config_with, request_headers, configured, config}
use s3client.Api.Send.Stale.{stale_method}
use s3client.Api.Objects.{get_object_array}
use s3client.Http.Client.Method.{is_custom, is_plain}
use s3client.Api.Send.Lost.{IsLost}
use s3client.Api.Multipart.{try_part, try_file_part, upload_part, unbuffered}
use s3client.Api.Multipart.Retries.{upload_part_endless}
use s3client.Api.Fixtures.{network, lost_network, on_network, fresh}

-- A part of three bytes.
abbrev a_try : Action ℕ Bytes
a_try =
    try_part (on_network (network [])) (codes "bucket") (codes "key") (codes "abc") (codes "id") 0 3
      []

abbrev once_more : S3Api ℕ → S3Api ℕ
once_more s = record s { retries = s.retries + 1 }

abbrev tried : Result Bytes × S3Api ℕ
tried = a_try (fresh 1)

abbrev again : Result Bytes × S3Api ℕ
again = a_try (once_more tried.1)

abbrev a_file_try : Action ℕ Bytes
a_file_try =
    try_file_part (on_network (network [])) (codes "file") 4 3 (codes "bucket") (codes "key")
      (codes "id") 1 unbuffered [] []

abbrev file_sent : Result Bytes × S3Api ℕ
file_sent = a_file_try (fresh 0)

lost_network-IsLost : IsLost lost_network
unfolding IsLost
lost_network-IsLost w o = refl

upload_part_endless_example :
    (upload_part
      (on_network lost_network)
      100
      (codes "bucket")
      (codes "key")
      (codes "id")
      0
      (codes "abc")
      3
      0
      []
      (fresh 1)).0
    ≡ err no_fuel
upload_part_endless_example =
    upload_part_endless (on_network lost_network) 100 (codes "bucket") (codes "key") (codes "id") 0
      (codes "abc") 3 [] (fresh 1) lost_network-IsLost (omega arith)

abbrev removal : SendParams
removal = record plain_request {
  method = codes "DELETE";
  bucket = codes "bucket";
  key = codes "key";
}

abbrev fetch : SendParams
fetch = record plain_request { bucket = codes "bucket"; key = codes "key" }

abbrev here : Environment ℕ
here = on_network (network [])

abbrev removed : S3Api ℕ
removed = record (fresh 0) { web = configured (fresh 0).endpoint removal [] (fresh 0).web }

abbrev fetched : S3Api ℕ
fetched = record removed { web = configured removed.endpoint fetch [] removed.web }

config-removal : config here removal (fresh 0) ≡ (ok tt, removed)
unfolding config config_with request_headers is_empty
config-removal = refl

config-fetch : config here fetch removed ≡ (ok tt, fetched)
unfolding config config_with request_headers is_empty
config-fetch = refl

is_custom-removal : is_custom removal.method ≡ true
unfolding is_custom same_text
is_custom-removal = refl

is_plain-fetch : is_plain fetch.method ≡ true
unfolding is_plain same_text
is_plain-fetch = refl

stale_method_example : fetched.web.options.custom_request ≡ some (codes "DELETE")
stale_method_example =
    stale_method here removal fetch (fresh 0) removed fetched config-removal config-fetch
      is_custom-removal is_plain-fetch

-- Two bytes into an array of four.
abbrev two_bytes : Environment ℕ
two_bytes = on_network (network (codes "hi"))

abbrev got : Result Bytes × S3Api ℕ
got = get_object_array two_bytes (codes "bucket") (codes "key") (codes "....") 1 0 0 [] [] (fresh 0)
