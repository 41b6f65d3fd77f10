-- ===== src/Sign/Endpoint/Parsed.antt =====
-- What `ParseURL` reads from an endpoint with a port, and the host that is signed for it.
use s3client.Common.{
  ℕ, zero, suc, ◌^◌, ◌<◌, [], ◌∷◌, ◌++◌, Bytes, some, true, false, ◌==◌, if◌then◌else◌, codes,
  length, drop, drop-append, ◌≡◌, refl, ap, ◌∙◌, arith,
}
use s3client.Text.Url.{is_digit, is_upper, is_lower}
use s3client.Text.Headers.{run_of, is_word}
use s3client.Text.Toml.Lines.{Passes, run_of-before, word_shown}
use s3client.Xml.Path.{skip_spaces, is_space}
use s3client.Sign.{ℤ, Url, is_empty, is_prefix, to_string, host_of}
use s3client.Sign.Endpoint.Digits.{IsNumber, to_int-pos, port_text}
use s3client.Sign.Endpoint.{is_host_letter, port_digits, url_here, url_match, parse_url}

-- An endpoint with its port, and what stands behind it.
unfoldable pub endpoint_text : Bytes → Bytes → ℕ → Bytes → Bytes
endpoint_text proto host n tail =
    proto ++ (codes "://" ++ (host ++ (58 ∷ (to_string (ℤ.pos n) ++ tail))))

url_here-found :
    (s proto r host : Bytes)
    → skip_spaces s ≡ proto ++ 58 ∷ 47 ∷ 47 ∷ r
    → run_of is_word (proto ++ 58 ∷ 47 ∷ 47 ∷ r) ≡ proto
    → is_empty proto ≡ false
    → run_of is_host_letter r ≡ host
    → is_empty host ≡ false
    → url_here s ≡ some (proto, (host, port_digits (drop (length host) r)))
unfolding url_here is_prefix
url_here-found s proto r host skipped word e1 letters e2 =
    rw (url_here, skipped, word, drop-append proto (58 ∷ 47 ∷ 47 ∷ r), e1, letters, e2) refl

run_of-digits :
    (digits tail : Bytes)
    → IsNumber digits
    → run_of is_digit tail ≡ []
    → run_of is_digit (digits ++ tail) ≡ digits
unfolding run_of IsNumber
run_of-digits [] tail h ht = ht
run_of-digits (c ∷ digits) tail (h, hs) ht =
    rw h (ap (λ (t : Bytes). c ∷ t) (run_of-digits digits tail hs ht))

no_word_colon : is_word 58 ≡ false
unfolding is_word is_digit is_upper is_lower
no_word_colon = refl

no_host_colon : is_host_letter 58 ≡ false
unfolding is_host_letter is_digit is_upper is_lower
no_host_colon = refl

word_start : (c : ℕ) (s : Bytes) → is_word c ≡ true → skip_spaces (c ∷ s) ≡ c ∷ s
unfolding skip_spaces is_space
word_start c s h = rw (skip_spaces, word_shown c h) refl

here_parts :
    (proto host digits tail : Bytes)
    → Passes is_word proto
    → Passes is_host_letter host
    → IsNumber digits
    → run_of is_digit tail ≡ []
    → url_here (proto ++ 58 ∷ 47 ∷ 47 ∷ (host ++ 58 ∷ (digits ++ tail)))
      ≡ some (proto, (host, digits))
unfolding port_digits Passes
here_parts [] host digits tail (e, h) hh hd ht = absurd (unfold is_empty in cc e)
here_parts (c ∷ p) host digits tail (e, (hc, hp)) (he, hh) hd ht =
    let r : Bytes = host ++ 58 ∷ (digits ++ tail) in
    let found =
      url_here-found ((c ∷ p) ++ 58 ∷ 47 ∷ 47 ∷ r) (c ∷ p) r host (word_start c _ hc)
        (run_of-before is_word (c ∷ p) (47 ∷ 47 ∷ r) 58 (hc, hp) no_word_colon) e
        (run_of-before is_host_letter host (digits ++ tail) 58 hh no_host_colon) he in
    found ∙ rw (drop-append host (58 ∷ (digits ++ tail)), run_of-digits digits tail hd ht) refl

match_here :
    (s : Bytes) (m : Bytes × (Bytes × Bytes))
    → url_here s ≡ some m
    → is_empty s ≡ false
    → url_match s ≡ some m
unfolding url_match is_empty
match_here [] m h e = absurd (cc e)
match_here (c ∷ s) m h e = rw (url_match, h) refl

some_front : (s t : Bytes) → is_empty s ≡ false → is_empty (s ++ t) ≡ false
unfolding is_empty
some_front [] t h = absurd (cc h)
some_front (c ∷ s) t h = refl

host_of-pos :
    (n : ℕ) (host proto : Bytes)
    → host_of (record { port = ℤ.pos n; host = host; proto = proto })
      ≡ (if n == 0 then host else host ++ (codes ":" ++ to_string (ℤ.pos n)))
unfolding host_of
host_of-pos zero host proto = refl
host_of-pos (suc n) host proto = let other : (suc n == 0) ≡ false = ground arith in rw other refl

-- `ParseURL` reads back an endpoint that is written as a protocol, a host and a port below 2 ^ 31, whatever
-- stands behind it that does not start with a digit; and the host that is signed for it is the host with
-- its port, unless the port is 0. The protocol and the host are not empty and of their letters.
pub parse_url-endpoint_text :
    (proto host tail : Bytes) (n : ℕ)
    → Passes is_word proto
    → Passes is_host_letter host
    → n < 2 ^ 31
    → run_of is_digit tail ≡ []
    → (url : Url) × (parse_url (endpoint_text proto host n tail) ≡ some url)
      × (url.proto ≡ proto)
      × (url.host ≡ host)
      × (url.port ≡ ℤ.pos n)
      × (host_of url ≡ (if n == 0 then host else host ++ (codes ":" ++ to_string (ℤ.pos n))))
unfolding parse_url endpoint_text
parse_url-endpoint_text proto host tail n hp hh small ht =
    let digits = to_string (ℤ.pos n) in
    let (begun, number, value) = port_text n small in
    let begins : is_empty proto ≡ false = unfold Passes in hp.0 in
    let found : url_match (endpoint_text proto host n tail) ≡ some (proto, (host, digits)) =
      match_here _ _ (here_parts proto host digits tail hp hh number ht)
        (some_front proto (58 ∷ 47 ∷ 47 ∷ (host ++ 58 ∷ (digits ++ tail))) begins) in
    (
      record { port = ℤ.pos n; host = host; proto = proto },
      rw (parse_url, found, begun, value, to_int-pos n small) refl,
      refl,
      refl,
      refl,
      host_of-pos n host proto,
    )
