-- ===== src/Client/Bucket.antt =====
-- Which names `ValidateBucket` accepts.
use s3client.Common.{
  ℕ, zero, suc, ◌+◌, ◌-◌, ◌≤◌, [], ◌∷◌, Bytes, none, some, true, false, ◌==◌, codes, length, drop,
  ◌≡◌, ◌↔◌, refl, arith, All, Bool-cases, inl, inr,
}
use s3client.Text.Url.{is_digit, is_lower}
use s3client.Sign.{is_prefix}
use s3client.Client.{BucketValidation, validate_bucket, letter_loop, is_alnum, is_address, accepted}

abbrev pub IsLower : Bytes → Type 0
IsLower = All (λ c. is_lower c ≡ true)

lower_not_digit : (c : ℕ) → is_lower c ≡ true → is_digit c ≡ false
unfolding is_lower is_digit
lower_not_digit c h = ground arith

lower_not_hyphen : (c : ℕ) → is_lower c ≡ true → (c == 45) ≡ false
unfolding is_lower
lower_not_hyphen c h = ground arith

loop-IsLower : (i b : ℕ) (name : Bytes) → letter_loop i b name ≡ none → IsLower name
unfolding letter_loop
loop-IsLower i b [] h = tt
loop-IsLower i b (c ∷ rest) h = (ground arith, loop-IsLower (i + 1) c rest (ground arith))

loop_of-IsLower : (i b : ℕ) (name : Bytes) → IsLower name → letter_loop i b name ≡ none
unfolding letter_loop is_alnum
loop_of-IsLower i b [] h = refl
loop_of-IsLower i b (c ∷ rest) (hc, h) =
    ground (arith, loop_of-IsLower (i + 1) c rest h, lower_not_hyphen c hc)

prefix-IsLower : (p s : Bytes) → is_prefix p s ≡ true → IsLower s → IsLower p
unfolding is_prefix
prefix-IsLower [] s h l = tt
prefix-IsLower (x ∷ p) [] h l = cc
prefix-IsLower (x ∷ p) (c ∷ s) h (lc, l) = (ground arith, prefix-IsLower p s (ground arith) l)

drop-IsLower : (n : ℕ) (s : Bytes) → IsLower s → IsLower (drop n s)
drop-IsLower zero s l = l
drop-IsLower (suc n) [] l = tt
drop-IsLower (suc n) (c ∷ s) (lc, l) = drop-IsLower n s l

-- Neither the prefix nor the suffix that is refused is made of lower-case letters.
no_prefix : (s : Bytes) → IsLower s → is_prefix (codes "xn--") s ≡ false
unfolding is_lower
no_prefix s l = elim (Bool-cases (is_prefix (codes "xn--") s)) [
  | inl e ↦ absurd (not_lower (prefix-IsLower (codes "xn--") s e l))
  | inr e ↦ e
]
  where
    not_lower : ¬ IsLower (codes "xn--")
    not_lower (x, (n, (hyphen, rest))) = cc

no_suffix : (s : Bytes) → IsLower s → is_prefix (codes "-s3alias") s ≡ false
unfolding is_lower
no_suffix s l = elim (Bool-cases (is_prefix (codes "-s3alias") s)) [
  | inl e ↦ absurd (not_lower (prefix-IsLower (codes "-s3alias") s e l))
  | inr e ↦ e
]
  where
    not_lower : ¬ IsLower (codes "-s3alias")
    not_lower (hyphen, rest) = cc

letter_no_address : (c : ℕ) (rest : Bytes) → is_lower c ≡ true → is_address 3 0 (c ∷ rest) ≡ false
unfolding is_address is_lower
letter_no_address c rest h = ground (arith, lower_not_digit c h)

loop_fault :
    (i b : ℕ) (name : Bytes) (f : BucketValidation)
    → letter_loop i b name ≡ some f
    → f.valid ≡ false
unfolding letter_loop
loop_fault i b [] f h = cc
loop_fault i b (c ∷ rest) f h = ground (arith, loop_fault (i + 1) c rest f)

-- What is known of an accepted name.
passed :
    (c : ℕ) (rest : Bytes)
    → validate_bucket (c ∷ rest) ≡ some accepted
    → (8 ≤ length (c ∷ rest)) × (length (c ∷ rest) ≤ 63) × (letter_loop 0 0 (c ∷ rest) ≡ none)
unfolding validate_bucket
passed c rest h = ground (arith, loop_fault 0 0 (c ∷ rest) accepted)

passes :
    (c : ℕ) (rest : Bytes)
    → 8 ≤ length (c ∷ rest)
    → length (c ∷ rest) ≤ 63
    → is_alnum c ≡ true
    → is_prefix (codes "xn--") (c ∷ rest) ≡ false
    → is_prefix (codes "-s3alias") (drop (length (c ∷ rest) - 8) (c ∷ rest)) ≡ false
    → letter_loop 0 0 (c ∷ rest) ≡ none
    → is_address 3 0 (c ∷ rest) ≡ false
    → validate_bucket (c ∷ rest) ≡ some accepted
unfolding validate_bucket
passes c rest low high first prefix suffix letters address = ground arith

-- A name is accepted if and only if it has 8 to 63 letters, all of them lower-case.
pub validate_bucket_accepts :
    (name : Bytes)
    → (validate_bucket name ≡ some accepted)
      ↔ ((8 ≤ length name) × (length name ≤ 63) × IsLower name)
unfolding validate_bucket is_alnum
validate_bucket_accepts [] = (λ h. ground arith, λ h. ground arith)
validate_bucket_accepts (c ∷ rest) = (
  λ h.
      let (low, high, letters) = passed c rest h in
      (low, high, loop-IsLower 0 0 (c ∷ rest) letters),
  λ (low, high, l).
      passes c rest low high (ground arith) (no_prefix (c ∷ rest) l)
        (no_suffix (drop (length (c ∷ rest) - 8) (c ∷ rest))
          (drop-IsLower (length (c ∷ rest) - 8) (c ∷ rest) l))
        (loop_of-IsLower 0 0 (c ∷ rest) l) (letter_no_address c rest l.0),
)
