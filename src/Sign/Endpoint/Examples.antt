-- ===== src/Sign/Endpoint/Examples.antt =====
-- The theorem on endpoints at one with a port and a path.
use s3client.Common.{[], ◌++◌, some, codes, if◌then◌else◌, ◌==◌, ◌≡◌, refl, arith}
use s3client.Text.Url.{is_digit, is_upper, is_lower}
use s3client.Text.Headers.{run_of, is_word}
use s3client.Text.Toml.Lines.{Passes}
use s3client.Sign.{ℤ, Url, is_empty, to_string, host_of}
use s3client.Sign.Endpoint.{is_host_letter, parse_url}
use s3client.Sign.Endpoint.Parsed.{endpoint_text, parse_url-endpoint_text}

http_letters : Passes is_word (codes "http")
unfolding Passes is_word is_digit is_upper is_lower is_empty
http_letters = (refl, (refl, (refl, (refl, (refl, tt)))))

host_letters : Passes is_host_letter (codes "s3.a")
unfolding Passes is_host_letter is_digit is_upper is_lower is_empty
host_letters = (refl, (refl, (refl, (refl, (refl, tt)))))

no_digit : run_of is_digit (codes "/b") ≡ []
unfolding run_of is_digit
no_digit = refl

parse_url-endpoint_text_example :
    (url : Url) × (parse_url (endpoint_text (codes "http") (codes "s3.a") 80 (codes "/b"))
      ≡ some url)
    × (url.proto ≡ codes "http")
    × (url.host ≡ codes "s3.a")
    × (url.port ≡ ℤ.pos 80)
    × (host_of url
        ≡ (if 80 == 0 then codes "s3.a" else codes "s3.a" ++ (codes ":" ++ to_string (ℤ.pos 80))))
parse_url-endpoint_text_example =
    parse_url-endpoint_text (codes "http") (codes "s3.a") (codes "/b") 80 http_letters host_letters
      (omega arith) no_digit
