-- ===== src/Sign/Request/Examples.antt =====
-- A request that is signed, and the theorems on signing and on percent encoding at its texts.
use s3client.Common.{[], ◌∷◌, Bytes, some, true, codes, ◌≡◌, refl, ◌++◌, arith, same_text}
use mathlib.Core.List.{flat_map}
use s3client.Common.Dict.{Dict, insert, insert_all, keys, lex_lt, lookup, Sorted}
use s3client.Hash.Utility.{
  alloc_padded, next_div_by, copy_at, to_big_endian, to_little_endian, bytes_of, right_rotate,
  lshift,
}
use s3client.Hash.Sha256.{
  sha256, hash_to_text, sha256_stream, stream_loop, compress, load_loop, load_round, ring_loop,
  ring_round, rotate_variables, extend_ring, big_sigma0, big_sigma1, small_sigma0, small_sigma1, ch,
  maj, to_little, memory_of, hex_byte, hex_digit, add_words,
}
use s3client.Hash.Hmac.{hmac256, key_block, hash_behind}
use s3client.Text.Url.{to_upper, to_lower, is_lower, is_upper, drop_last, url_encode}
use s3client.Text.Url.Decode.{url_decode, url_decode-url_encode}
use s3client.Sign.Request.Agreement.{signed_names-canonical, sent_as_signed}
use s3client.Sign.Request.Sent.{sign_headers_keeps}
use s3client.Sign.{
  Url, Time, ComputeSignatureConfig, Signature, ℤ, sha256_text, hash_with, create_signature_key,
  hex, host_of, resource_of, header_lines, name_list, is_signed, is_prefix, is_empty,
  default_headers, key_loop, header_loop, all_lower, to_string, decimal_digits,
}
use s3client.Sign.Request.{
  sign_headers, compute_signature, canonical_request, signed_names, signed_of, defaults_of,
  payload_of, time_of, scope_of, string_to_sign, query_of, authorization,
}

abbrev local_url : Bytes → Url
local_url s = record { port = ℤ.pos 9000; host = codes "localhost"; proto = codes "http" }

abbrev at_noon : Time
at_noon = record { time_stamp = codes "20240101T120000Z"; date_stamp = codes "20240101" }

abbrev put_request : ComputeSignatureConfig
put_request = record {
  access = codes "key";
  secret = codes "secret";
  endpoint = codes "http://localhost:9000";
  method = codes "put";
  bucket = codes "b";
  key = codes "k";
  payload_hash = [];
  parameters = [];
  headers = (codes "content-type", codes "text") ∷ (codes "x-amz-acl", codes "private") ∷ [];
  region = codes "us-east";
  service = codes "s3";
  dates = at_noon;
}

abbrev sent : Dict Bytes
sent =
    (
      codes "Authorization",
      codes "AWS4-HMAC-SHA256 Credential=key/20240101/us-east/s3/aws4_req"
          ++ codes
              "uest, SignedHeaders=host;x-amz-acl;x-amz-content-sha256;x-amz-date, Signature=5d"
          ++ codes "96f9cdb3e2a46056784d550d525460047e233e05ae50ffc4ecb9daab451e22",
    )
    ∷ (codes "content-type", codes "text")
    ∷ (codes "host", codes "localhost:9000")
    ∷ (codes "x-amz-acl", codes "private")
    ∷ (codes "x-amz-content-sha256", codes "UNSIGNED-PAYLOAD")
    ∷ (codes "x-amz-date", codes "20240101T120000Z")
    ∷ []

sent_put : sign_headers local_url at_noon true put_request ≡ some sent
unfolding sign_headers compute_signature canonical_request signed_names signed_of defaults_of
    payload_of time_of scope_of string_to_sign query_of authorization sha256_text hash_with
    create_signature_key hex host_of resource_of header_lines name_list is_signed is_prefix is_empty
    default_headers key_loop header_loop all_lower to_string decimal_digits to_upper to_lower
    is_lower is_upper drop_last key_block hash_behind hmac256 sha256 hash_to_text sha256_stream
    stream_loop compress load_loop load_round ring_loop ring_round rotate_variables extend_ring
    big_sigma0 big_sigma1 small_sigma0 small_sigma1 ch maj to_little memory_of hex_byte hex_digit
    add_words alloc_padded next_div_by copy_at to_big_endian to_little_endian bytes_of right_rotate
    lshift insert insert_all keys lex_lt flat_map same_text
sent_put = refl

acl_signed : is_signed (codes "x-amz-acl") ≡ true
unfolding is_signed is_prefix
acl_signed = refl

signed_names-canonical_example :
    (signed_names local_url at_noon true put_request
      ≡ drop_last (name_list (keys (signed_of local_url at_noon true put_request).0)))
    × Sorted (keys (signed_of local_url at_noon true put_request).0)
signed_names-canonical_example = signed_names-canonical local_url at_noon true put_request

sent_as_signed_example :
    lookup (codes "x-amz-acl") (signed_of local_url at_noon true put_request).0
    ≡ lookup (codes "x-amz-acl") sent
sent_as_signed_example =
    sent_as_signed local_url at_noon true put_request sent (codes "x-amz-acl") sent_put acl_signed

sign_headers_keeps_example :
    (s : Signature) × (compute_signature local_url at_noon true put_request ≡ some s)
    × (lookup (codes "host") sent ≡ some (host_of (local_url put_request.endpoint)))
    × (lookup (codes "x-amz-content-sha256") sent
        ≡ some (payload_of local_url at_noon true put_request))
    × (lookup (codes "x-amz-date") sent
        ≡ some ((time_of local_url at_noon true put_request.dates).time_stamp))
    × (lookup (codes "Authorization") sent
        ≡ some (authorization local_url at_noon true put_request s))
    × Sorted (keys sent)
sign_headers_keeps_example = sign_headers_keeps local_url at_noon true put_request sent sent_put

url_decode-url_encode_example : url_decode (url_encode (codes "a b/%")) ≡ some (codes "a b/%")
url_decode-url_encode_example =
    url_decode-url_encode (codes "a b/%")
      (omega arith, (omega arith, (omega arith, (omega arith, (omega arith, tt)))))
