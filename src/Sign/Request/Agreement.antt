-- ===== src/Sign/Request/Agreement.antt =====
-- The headers that are signed are those that are sent: the names, their order and the values.
use s3client.Common.{
  [], ◌∷◌, List, Bytes, Option, none, some, Bool, true, false, ◌≡◌, refl, sym, ap, arith,
  if◌then◌else◌, codes, Bool-cases, inl, inr,
}
use s3client.Common.Dict.{Dict, insert, insert_all, lookup, keys, Sorted, lex_lt, lex_lt-tri}
use s3client.Common.Dict.Laws.{lookup-insert, insert-Sorted}
use s3client.Hash.Utility.{◌>>=◌}
use s3client.Text.Url.{drop_last}
use s3client.Sign.{
  Url, Time, ComputeSignatureConfig, Signature, is_signed, is_prefix, header_loop, key_loop,
  default_headers, name_list,
}
use s3client.Sign.Request.{
  signed_of, signed_names, defaults_of, compute_signature, sign_headers, authorization,
}

insert_key : Bytes → List Bytes → List Bytes
insert_key k [] = k ∷ []
insert_key k (j ∷ ks) =
    if lex_lt k j then k ∷ j ∷ ks else if lex_lt j k then j ∷ insert_key k ks else j ∷ ks

keys-insert :
    {V : Type 0} (k : Bytes) (v : V) (m : Dict V) → keys (insert k v m) ≡ insert_key k (keys m)
unfolding keys insert insert_key
keys-insert k v [] = refl
keys-insert k v ((j, w) ∷ m) = ground (arith, keys-insert k v m)

keys-insert_both :
    {V U : Type 0} (k : Bytes) (v : V) (u : U) (m : Dict V) (s : Dict U)
    → keys m ≡ keys s
    → keys (insert k v m) ≡ keys (insert k u s)
keys-insert_both k v u m s h = rw (keys-insert k v m, keys-insert k u s, h) refl

-- The loop over the headers keeps the names of both maps the same.
header_loop-keys :
    (headers m : Dict Bytes) (s : Dict (Unit {0}))
    → keys m ≡ keys s
    → keys (header_loop headers m s).0 ≡ keys (header_loop headers m s).1
unfolding header_loop
header_loop-keys [] m s h = h
header_loop-keys ((k, v) ∷ rest) m s h = elim (Bool-cases (is_signed k)) [
  | inl e ↦
      rw (header_loop, e)
        (header_loop-keys rest (insert k v m) (insert k tt s) (keys-insert_both k v tt m s h))
  | inr e ↦ rw (header_loop, e) (header_loop-keys rest m s h)
]

header_loop-Sorted :
    (headers m : Dict Bytes) (s : Dict (Unit {0}))
    → Sorted (keys m)
    → Sorted (keys (header_loop headers m s).0)
unfolding header_loop
header_loop-Sorted [] m s h = h
header_loop-Sorted ((k, v) ∷ rest) m s h = elim (Bool-cases (is_signed k)) [
  | inl e ↦
      rw (header_loop, e)
        (header_loop-Sorted rest (insert k v m) (insert k tt s) (insert-Sorted k v m h))
  | inr e ↦ rw (header_loop, e) (header_loop-Sorted rest m s h)
]

default_keys :
    (host payload stamp : Bytes)
    → keys (default_headers host payload stamp)
      ≡ keys (key_loop (default_headers host payload stamp) [])
unfolding default_headers keys insert lex_lt key_loop
default_keys host payload stamp = refl

pub default-Sorted :
    (host payload stamp : Bytes) → Sorted (keys (default_headers host payload stamp))
unfolding default_headers keys insert lex_lt
default-Sorted host payload stamp = ground arith

-- Two maps have the same values for the headers that are signed.
abbrev Agree : Dict Bytes → Dict Bytes → Type 0
Agree a b = (k : Bytes) → is_signed k ≡ true → lookup k a ≡ lookup k b

insert-Agree : (j w : Bytes) (a b : Dict Bytes) → Agree a b → Agree (insert j w a) (insert j w b)
insert-Agree j w a b h k e =
    ground (arith, lookup-insert k j w a, lookup-insert k j w b, h k e, lex_lt-tri k j, h j)

unsigned-Agree :
    (j w : Bytes) (a b : Dict Bytes) → is_signed j ≡ false → Agree a b → Agree a (insert j w b)
unsigned-Agree j w a b other h k e = ground (arith, lookup-insert k j w b, h k e, lex_lt-tri k j)

loops-Agree :
    (headers a b : Dict Bytes) (s : Dict (Unit {0}))
    → Agree a b
    → Agree (header_loop headers a s).0 (insert_all headers b)
unfolding header_loop insert_all
loops-Agree [] a b s h = h
loops-Agree ((j, w) ∷ rest) a b s h = elim (Bool-cases (is_signed j)) [
  | inl e ↦
      rw (header_loop, e)
        (loops-Agree rest (insert j w a) (insert j w b) (insert j tt s) (insert-Agree j w a b h))
  | inr e ↦ rw (header_loop, e) (loops-Agree rest a (insert j w b) s (unsigned-Agree j w a b e h))
]

start-Agree : (auth : Bytes) (m : Dict Bytes) → Agree m (insert (codes "Authorization") auth m)
start-Agree auth m =
    unsigned-Agree (codes "Authorization") auth m m (unfold is_signed is_prefix in refl)
      (λ k e. refl)

module _ (parse_url : Bytes → Url) (now : Time) (debug : Bool) (cfg : ComputeSignatureConfig) where
  same_defaults :
      (s : Signature)
      → compute_signature parse_url now debug cfg ≡ some s
      → s.default_headers ≡ defaults_of parse_url now debug cfg
  unfolding compute_signature
  same_defaults s h = ground arith

  -- The headers of a signature.
  pub sent_with :
      (sent : Dict Bytes)
      → sign_headers parse_url now debug cfg ≡ some sent
      → (s : Signature) × (compute_signature parse_url now debug cfg ≡ some s)
        × (sent
            ≡ insert_all cfg.headers (
                insert
                  (codes "Authorization")
                  (authorization parse_url now debug cfg s)
                  (defaults_of parse_url now debug cfg)))
  unfolding sign_headers
  sent_with sent h = opened (compute_signature parse_url now debug cfg) refl h
    where
      opened :
          (r : Option Signature)
          → compute_signature parse_url now debug cfg ≡ r
          → (do
            s ← r
            some (
                insert_all cfg.headers (
                  insert
                    (codes "Authorization")
                    (authorization parse_url now debug cfg s)
                    s.default_headers)))
            ≡ some sent
          → (s : Signature) × (compute_signature parse_url now debug cfg ≡ some s)
            × (sent
                ≡ insert_all cfg.headers (
                    insert
                      (codes "Authorization")
                      (authorization parse_url now debug cfg s)
                      (defaults_of parse_url now debug cfg)))
      opened none e h = cc
      opened (some s) e h = (s, e, cc (h, same_defaults s e))

-- The list of signed headers in a signature names the canonical headers, in their order, which is
-- strictly increasing; it is so whatever headers the request has.
pub signed_names-canonical :
    (parse_url : Bytes → Url) (now : Time) (debug : Bool) (cfg : ComputeSignatureConfig)
    → (signed_names parse_url now debug cfg
        ≡ drop_last (name_list (keys (signed_of parse_url now debug cfg).0)))
      × Sorted (keys (signed_of parse_url now debug cfg).0)
unfolding signed_names signed_of defaults_of
signed_names-canonical parse_url now debug cfg =
    let m = defaults_of parse_url now debug cfg in
    (
      ap (λ (ks : List Bytes). drop_last (name_list ks))
          (sym (header_loop-keys cfg.headers m (key_loop m []) (default_keys _ _ _))),
      header_loop-Sorted cfg.headers m (key_loop m []) (default-Sorted _ _ _),
    )

-- Every header whose name starts with `x-amz-` or `content-length` is sent with the value that was
-- signed, also when the request gives a header twice or one of the default headers.
pub sent_as_signed :
    (parse_url : Bytes → Url) (now : Time) (debug : Bool) (cfg : ComputeSignatureConfig)
    (sent : Dict Bytes) (k : Bytes)
    → sign_headers parse_url now debug cfg ≡ some sent
    → is_signed k ≡ true
    → lookup k (signed_of parse_url now debug cfg).0 ≡ lookup k sent
unfolding signed_of
sent_as_signed parse_url now debug cfg sent k h e =
    let (s, computed, same) = sent_with parse_url now debug cfg sent h in
    let m = defaults_of parse_url now debug cfg in
    let auth = authorization parse_url now debug cfg s in
    let agree =
      loops-Agree cfg.headers m (insert (codes "Authorization") auth m) (key_loop m [])
        (start-Agree auth m) in
    rw same (agree k e)
