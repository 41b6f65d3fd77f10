-- ===== src/Client.antt =====
-- lib/src/s3-client.cpp: the tests on the arguments of a request and on the name of a bucket.
pub mod Bucket
pub mod Request
mod Examples
use s3client.Common.{
  ℕ, zero, suc, ◌+◌, ◌-◌, List, [], ◌∷◌, Bytes, Option, none, some, Bool, true, false, not, ◌&&◌,
  ◌||◌, ltb, ◌==◌, if◌then◌else◌, codes, length, drop, same_text,
}
use s3client.Text.Url.{is_digit, is_upper, is_lower, to_lower}
use s3client.Sign.{is_empty, is_prefix}

-- `none` is the exception; the test of the URL is compiled with VALIDATE_URL only.
pub validate : Bytes → Bytes → Bytes → Option (Unit {0})
validate access_key secret_key method =
    let m = to_lower method in
    if is_empty access_key && not (is_empty secret_key)
      || is_empty secret_key && not (is_empty access_key)
    then none
    else if same_text (codes "get") m
        || same_text (codes "put") m
        || same_text (codes "post") m
        || same_text (codes "delete") m
        || same_text (codes "head") m
    then some tt
    else none

pub record BucketValidation : Type 0 where
  pub valid : Bool
  pub error : Bytes

abbrev pub refused : Bytes → BucketValidation
refused text = record { valid = false; error = text }

abbrev pub accepted : BucketValidation
accepted = record { valid = true; error = [] }

pub is_alnum : ℕ → Bool
is_alnum c = is_digit c || is_upper c || is_lower c

-- The loop over the letters from position `i` on, with the letter before it.
pub letter_loop : ℕ → ℕ → Bytes → Option BucketValidation
letter_loop i before [] = none
letter_loop i before (c ∷ rest) =
    let next = letter_loop (i + 1) c rest in
    if not (is_lower c)
    then some (refused (codes "Only lowercase letters allowed"))
    else if ltb 0 i && (c == 45 && before == 45)
    then some (refused (codes "Cannot have two consecutive '-' characters"))
    else if not (c == 46) && (not (c == 45) && not (is_alnum c))
    then some (refused (codes "Only numbers, digits, '.' and '-' charachters allowers"))
    else next

-- The match of four groups of one to three digits with points between them: `groups` are still to
-- come after this one, which has `digits` so far.
pub is_address : ℕ → ℕ → Bytes → Bool
is_address groups digits [] = groups == 0 && ltb 0 digits
is_address groups digits (c ∷ rest) = elim (is_digit c) [
  | true ↦ ltb digits 3 && is_address groups (digits + 1) rest
  | false ↦ (c == 46 && ltb 0 digits) && (ltb 0 groups && is_address (groups - 1) 0 rest)
]

-- `none` is the exception of `substr`, whose start wraps on a name shorter than the suffix; the
-- rest of a name from that start on has the length of the suffix.
pub validate_bucket : Bytes → Option BucketValidation
validate_bucket [] = some (refused (codes "Empty"))
validate_bucket (c ∷ rest) =
    let name = c ∷ rest in
    if ltb 63 (length name)
    then some (refused (codes "Size > 63"))
    else if not (is_alnum c)
    then some (refused (codes "Name must start with a number or a digit"))
    else if is_prefix (codes "xn--") name
    then some (refused (codes "Name cannot start with 'xn--'"))
    else if ltb (length name) 8
    then none
    else if is_prefix (codes "-s3alias") (drop (length name - 8) name)
    then some (refused (codes "Name cannot end with '-s3alias;"))
    else elim (letter_loop 0 0 name) [
      | some fault ↦ some fault
      | none ↦
          if is_address 3 0 name
          then some (refused (codes "IP addresses not allowed"))
          else some accepted
    ]
