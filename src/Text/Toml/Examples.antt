-- ===== src/Text/Toml/Examples.antt =====
-- A file of two sections.
use s3client.Common.{List, [], ◌∷◌, some, codes, ◌≡◌, refl}
use s3client.Sign.{is_empty}
use s3client.Text.Url.{is_digit, is_upper, is_lower}
use s3client.Text.Headers.{is_word}
use s3client.Text.Toml.{parse_toml}
use s3client.Text.Toml.Lines.{Pair, Passes, is_name, is_visible}
use s3client.Text.Toml.Written.{
  Section, ArePairs, AreSections, file_text, read_sections, parse_toml-file_text,
}

abbrev default_pairs : List Pair
default_pairs = (codes "id", codes "A") ∷ []

abbrev others : List Section
others = (codes "dev", (codes "key", codes "b+/") ∷ []) ∷ []

both-AreSections : AreSections ((codes "me", default_pairs) ∷ others)
unfolding AreSections ArePairs Passes is_name is_visible is_word is_digit is_upper is_lower is_empty
both-AreSections = (
  ((refl, (refl, (refl, tt))), (((refl, (refl, (refl, tt))), (refl, (refl, tt))), tt)),
  (
    (
      (refl, (refl, (refl, (refl, tt)))),
      (((refl, (refl, (refl, (refl, tt)))), (refl, (refl, (refl, (refl, tt))))), tt),
    ),
    tt,
  ),
)

parse_toml-file_text_example :
    parse_toml (file_text ((codes "me", default_pairs) ∷ others))
    ≡ some (read_sections (codes "me") default_pairs others [])
parse_toml-file_text_example =
    parse_toml-file_text (codes "me") default_pairs others both-AreSections
