-- ===== src/Apps/Keys.antt =====
-- apps/generate_s3_credentials.cpp.
pub mod Range
use s3client.Common.{
  ℕ, zero, suc, ◌-◌, List, [], ◌∷◌, ◌++◌, Bytes, Option, none, some, Bool, true, false, ◌&&◌,
  if◌then◌else◌, codes, length, drop, same_text,
}
use s3client.Apps.{Exit, exited, terminated}

abbrev pub chars : Bytes
chars = codes "abcdefghijklmnopqrstuvwxyzABCDEFGHIJKLMNOPQRSTUVWXYZ0123456789+/="

unfoldable pub char_at : Bytes → ℕ → Option ℕ
char_at [] i = none
char_at (c ∷ s) zero = some c
char_at (c ∷ s) (suc i) = char_at s i

-- The random numbers between two bounds.
module _ {W : Type 0} (draw : ℕ → ℕ → W → ℕ × W) where
  -- A character read outside the table is `none`.
  unfoldable pub random_key : ℕ → ℕ → ℕ → W → Option Bytes × W
  random_key low high zero w = (some [], w)
  random_key low high (suc n) w =
      let (i, w1) = draw low high w in
      let (rest, w2) = random_key low high n w1 in
      (
        elim (char_at chars i) [
          | none ↦ none
          | some c ↦ elim rest [ none ↦ none | some s ↦ some (c ∷ s) ]
        ],
        w2,
      )

  unfoldable pub print_key : Bool → ℕ → ℕ → Bool → W → Option Bytes × W
  print_key false low n line w = (some [], w)
  print_key true low n line w =
      let (key, w') = random_key low (length chars - 1) n w in
      (elim key [ none ↦ none | some k ↦ some (if line then k ++ codes "\n" else k) ], w')

  unfoldable pub key_exit : Option Bytes → Option Bytes → Exit
  key_exit none secret = terminated
  key_exit (some access) none = terminated
  key_exit (some access) (some secret) = exited 0 (access ++ secret)

  -- A line is ended behind each key if both are printed.
  unfoldable pub print_keys : Bool → Bool → W → Exit × W
  print_keys access secret w =
      let (a, w1) = print_key access 26 18 secret w in
      let (s, w2) = print_key secret 0 36 access w1 in (key_exit a s, w2)

  unfoldable pub generate_s3_credentials : Bytes → List Bytes → W → Exit × W
  generate_s3_credentials program [] w = print_keys true true w
  generate_s3_credentials program (a ∷ []) w =
      if same_text a (codes "access")
      then print_keys true false w
      else if same_text a (codes "secret")
      then print_keys false true w
      else if same_text a (codes "-h")
      then (
        exited 0 (
            codes "Generates S3 access and secret keys\nUsage: "
            ++ (program ++ codes " [access|key]\n")),
        w,
      )
      else (exited 1 [], w)
  generate_s3_credentials program (a ∷ b ∷ rest) w = (exited 1 [], w)
