-- ===== src/Client/Examples.antt =====
-- The theorem on names of buckets at a name that is accepted, and names that it excludes.
use s3client.Common.{◌≤◌, some, none, codes, length, ◌≡◌, ◌↔◌, refl}
use s3client.Text.Url.{is_digit, is_upper, is_lower}
use s3client.Sign.{is_prefix}
use s3client.Client.{validate_bucket, accepted, refused, is_alnum, letter_loop}
use s3client.Client.Bucket.{validate_bucket_accepts, IsLower}

validate_bucket_accepts_example : (validate_bucket (codes "mybucket") ≡ some accepted) ↔ (
    (8 ≤ length (codes "mybucket")) × (length (codes "mybucket") ≤ 63) × IsLower (codes "mybucket"))
validate_bucket_accepts_example = validate_bucket_accepts (codes "mybucket")

-- A name that the rules of the service allow, refused for its digit.
digit_refused :
    validate_bucket (codes "bucket-2024") ≡ some (refused (codes "Only lowercase letters allowed"))
unfolding validate_bucket is_alnum is_digit is_upper is_lower is_prefix letter_loop
digit_refused = refl

-- A name of six letters: the start of the suffix wraps.
short_throws : validate_bucket (codes "bucket") ≡ none
unfolding validate_bucket is_alnum is_digit is_upper is_lower is_prefix
short_throws = refl
