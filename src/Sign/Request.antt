-- ===== src/Sign/Request.antt =====
-- `ComputeSignature`, `SignHeaders` and `SignedURL` of lib/src/aws_sign.cpp. The parser
-- of endpoints (`ParseURL`, Sign/Endpoint.antt) and the clock are parameters; so is whether the build
-- has the debug test.
-- `none` stands for the exception of that test, and for a text beyond the bounds of the hash.
pub mod Agreement
pub mod Sent
mod Examples
use s3client.Common.{
  List, [], ◌∷◌, ◌++◌, Bytes, Option, none, some, Bool, true, false, not, ◌&&◌, if◌then◌else◌,
  codes,
}
use s3client.Common.Dict.{Dict, insert, insert_all, keys}
use s3client.Hash.Utility.{◌>>=◌}
use s3client.Hash.Hmac.{hmac256}
use s3client.Text.Url.{url_encode_map, drop_last, to_upper}
use s3client.Sign.{
  Url, Time, ComputeSignatureConfig, S3SignUrlConfig, Signature, is_empty, is_prefix, to_string,
  sha256_text, create_signature_key, hex, host_of, resource_of, header_lines, name_list,
  default_headers, key_loop, header_loop, all_lower,
}

module _ (parse_url : Bytes → Url) (now : Time) (debug : Bool) where
  pub time_of : Time → Time
  time_of dates = if is_empty dates.date_stamp then now else dates

  pub payload_of : ComputeSignatureConfig → Bytes
  payload_of cfg = if is_empty cfg.payload_hash then codes "UNSIGNED-PAYLOAD" else cfg.payload_hash

  pub defaults_of : ComputeSignatureConfig → Dict Bytes
  defaults_of cfg =
      default_headers (host_of (parse_url cfg.endpoint)) (payload_of cfg)
        ((time_of cfg.dates).time_stamp)

  -- The canonical headers and the names that are signed.
  pub signed_of : ComputeSignatureConfig → Dict Bytes × Dict (Unit {0})
  signed_of cfg = header_loop cfg.headers (defaults_of cfg) (key_loop (defaults_of cfg) [])

  pub signed_names : ComputeSignatureConfig → Bytes
  signed_names cfg = drop_last (name_list (keys (signed_of cfg).1))

  pub canonical_request : ComputeSignatureConfig → Bytes → Bytes
  canonical_request cfg query =
      to_upper cfg.method
      ++ (codes "\n"
          ++ (resource_of cfg.bucket cfg.key
              ++ (codes "\n"
                  ++ (query
                      ++ (codes "\n"
                          ++ (header_lines (signed_of cfg).0
                              ++ (codes "\n"
                                  ++ (signed_names cfg ++ (codes "\n" ++ payload_of cfg)))))))))

  pub scope_of : Bytes → Bytes → Bytes → Bytes
  scope_of date_stamp region service =
      date_stamp
      ++ (codes "/" ++ (region ++ (codes "/" ++ (service ++ (codes "/" ++ codes "aws4_request")))))

  -- The text that is signed.
  pub string_to_sign : Bytes → Bytes → Bytes → Bytes
  string_to_sign time_stamp scope digest =
      codes "AWS4-HMAC-SHA256"
      ++ (codes "\n" ++ (time_stamp ++ (codes "\n" ++ (scope ++ (codes "\n" ++ digest)))))

  pub query_of : Dict Bytes → Option Bytes
  query_of [] = some []
  query_of (p ∷ ps) = url_encode_map (p ∷ ps)

  pub compute_signature : ComputeSignatureConfig → Option Signature
  compute_signature cfg =
      let t = time_of cfg.dates in
      let scope = scope_of t.date_stamp cfg.region cfg.service in
      if debug && not (all_lower cfg.headers) then none else do
        query ← query_of cfg.parameters
        digest ← sha256_text (canonical_request cfg query)
        signing_key ← create_signature_key cfg.secret t.date_stamp cfg.region cfg.service
        mac ← hmac256 (string_to_sign t.time_stamp scope digest) signing_key
        some (record {
          signature = hex mac;
          credential_scope = scope;
          signed_headers_str = signed_names cfg;
          default_headers = defaults_of cfg;
        })

  pub authorization : ComputeSignatureConfig → Signature → Bytes
  authorization cfg s =
      codes "AWS4-HMAC-SHA256 Credential="
      ++ (cfg.access
          ++ (codes "/"
              ++ (s.credential_scope
                  ++ (codes ", SignedHeaders="
                      ++ (s.signed_headers_str ++ (codes ", Signature=" ++ s.signature))))))

  pub sign_headers : ComputeSignatureConfig → Option (Dict Bytes)
  sign_headers cfg = do
    s ← compute_signature cfg
    some (
        insert_all cfg.headers
          (insert (codes "Authorization") (authorization cfg s) s.default_headers))

  -- The headers for which `find("x-amz-")` is not zero: those that do not start with it.
  pub other_headers : Dict Bytes → Dict Bytes → Dict Bytes
  other_headers [] m = m
  other_headers ((k, v) ∷ rest) m = elim (is_prefix (codes "x-amz-") k) [
    | true ↦ other_headers rest m
    | false ↦ other_headers rest (insert k v m)
  ]

  pub url_parameters : S3SignUrlConfig → Bytes → Dict Bytes
  url_parameters cfg names =
      let t = time_of cfg.dates in
      let scope = scope_of t.date_stamp cfg.region (codes "s3") in
      let m1 = insert (codes "X-Amz-Algorithm") (codes "AWS4-HMAC-SHA256") [] in
      let m2 = insert (codes "X-Amz-Credential") (cfg.access ++ (codes "/" ++ scope)) m1 in
      let m3 = insert (codes "X-Amz-Date") t.time_stamp m2 in
      let m4 = insert (codes "X-Amz-Expires") (to_string cfg.expiration) m3 in
      insert_all cfg.params (insert (codes "X-Amz-SignedHeaders") names m4)

  -- The names of the signed headers in a URL.
  pub url_names : S3SignUrlConfig → Bytes
  url_names cfg =
      let host = host_of (parse_url cfg.endpoint) in
      drop_last (name_list (keys (other_headers cfg.headers (insert (codes "host") host []))))

  pub url_request : S3SignUrlConfig → Bytes → Bytes
  url_request cfg query =
      let host = host_of (parse_url cfg.endpoint) in
      cfg.method
      ++ (codes "\n"
          ++ (resource_of cfg.bucket cfg.key
              ++ (codes "\n"
                  ++ (query
                      ++ (codes "\n"
                          ++ (header_lines (insert (codes "host") host cfg.headers)
                              ++ (codes "\n"
                                  ++ (url_names cfg
                                      ++ (codes "\n" ++ codes "UNSIGNED-PAYLOAD")))))))))

  pub signed_url : S3SignUrlConfig → Option Bytes
  signed_url cfg = do
    let t = time_of cfg.dates
    let scope = scope_of t.date_stamp cfg.region (codes "s3")
    query ← url_encode_map (url_parameters cfg (url_names cfg))
    digest ← sha256_text (url_request cfg query)
    signing_key ← create_signature_key cfg.secret t.date_stamp cfg.region (codes "s3")
    mac ← hmac256 (string_to_sign t.time_stamp scope digest) signing_key
    let place = if is_empty cfg.bucket then [] else resource_of cfg.bucket cfg.key
    some (
        cfg.endpoint ++ (place ++ (codes "?" ++ (query ++ (codes "&X-Amz-Signature=" ++ hex mac)))))
