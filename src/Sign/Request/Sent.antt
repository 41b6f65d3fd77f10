-- ===== src/Sign/Request/Sent.antt =====
-- What `SignHeaders` sends: the default headers and the authorization keep their values.
use s3client.Common.{[], ◌∷◌, Bytes, some, Bool, ◌≡◌, refl, arith, codes}
use s3client.Common.Dict.{Dict, insert, insert_all, lookup, keys, Sorted, lex_lt, lex_lt-tri}
use s3client.Common.Dict.Laws.{lookup-insert, insert-Sorted, insert_all-Sorted, present_or}
use s3client.Sign.{Url, Time, ComputeSignatureConfig, Signature, default_headers, host_of}
use s3client.Sign.Request.{
  defaults_of, compute_signature, sign_headers, authorization, payload_of, time_of,
}
use s3client.Sign.Request.Agreement.{sent_with, default-Sorted}

insert_keeps :
    (j k : Bytes) (v w : Bytes) (m : Dict Bytes)
    → lookup j m ≡ some v
    → lookup j (insert k w m) ≡ some v
unfolding present_or
insert_keeps j k v w m h = ground (arith, lookup-insert j k w m, lex_lt-tri j k)

insert_all_keeps :
    (n : Dict Bytes) (j v : Bytes) (m : Dict Bytes)
    → lookup j m ≡ some v
    → lookup j (insert_all n m) ≡ some v
unfolding insert_all
insert_all_keeps [] j v m h = h
insert_all_keeps ((k, w) ∷ n) j v m h =
    insert_all_keeps n j v (insert k w m) (insert_keeps j k v w m h)

default_values :
    (host payload stamp auth : Bytes)
    → let m = insert (codes "Authorization") auth (default_headers host payload stamp) in
      (lookup (codes "host") m ≡ some host)
      × (lookup (codes "x-amz-content-sha256") m ≡ some payload)
      × (lookup (codes "x-amz-date") m ≡ some stamp)
      × (lookup (codes "Authorization") m ≡ some auth)
unfolding default_headers lookup insert lex_lt
default_values host payload stamp auth = (refl, refl, refl, refl)

-- The default headers and the authorization are sent with the values of the signature, whatever
-- headers the request gives by the same names, and the names are in strictly increasing order.
pub sign_headers_keeps :
    (parse_url : Bytes → Url) (now : Time) (debug : Bool) (cfg : ComputeSignatureConfig)
    (sent : Dict Bytes)
    → sign_headers parse_url now debug cfg ≡ some sent
    → (s : Signature) × (compute_signature parse_url now debug cfg ≡ some s)
      × (lookup (codes "host") sent ≡ some (host_of (parse_url cfg.endpoint)))
      × (lookup (codes "x-amz-content-sha256") sent ≡ some (payload_of parse_url now debug cfg))
      × (lookup (codes "x-amz-date") sent
          ≡ some ((time_of parse_url now debug cfg.dates).time_stamp))
      × (lookup (codes "Authorization") sent ≡ some (authorization parse_url now debug cfg s))
      × Sorted (keys sent)
unfolding defaults_of
sign_headers_keeps parse_url now debug cfg sent h =
    let (s, computed, same) = sent_with parse_url now debug cfg sent h in
    let auth = authorization parse_url now debug cfg s in
    let d = defaults_of parse_url now debug cfg in
    let m = insert (codes "Authorization") auth d in
    let (host, payload, date, author) = default_values _ _ _ auth in
    (
      s,
      computed,
      rw same (insert_all_keeps cfg.headers (codes "host") _ m host),
      rw same (insert_all_keeps cfg.headers (codes "x-amz-content-sha256") _ m payload),
      rw same (insert_all_keeps cfg.headers (codes "x-amz-date") _ m date),
      rw same (insert_all_keeps cfg.headers (codes "Authorization") _ m author),
      rw same (
          insert_all-Sorted cfg.headers m
            (insert-Sorted (codes "Authorization") auth d (default-Sorted _ _ _))),
    )
