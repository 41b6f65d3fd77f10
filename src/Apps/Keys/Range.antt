-- ===== src/Apps/Keys/Range.antt =====
-- The characters of the keys that are printed.
use s3client.Common.{
  ℕ, zero, suc, ◌-◌, ◌≤◌, ◌<◌, [], ◌∷◌, ◌++◌, Bytes, some, true, codes, length, drop, ◌≡◌, refl,
  arith, All,
}
use mathlib.Core.List.{Memᴰ}
use s3client.Apps.{exited}
use s3client.Apps.Keys.{
  chars, char_at, random_key, print_key, key_exit, print_keys, generate_s3_credentials,
}

-- Every number drawn is between the bounds.
unfoldable pub IsBetween : {W : Type 0} → (ℕ → ℕ → W → ℕ × W) → Type 0
IsBetween {W = W} draw =
    (low high : ℕ) (w : W) → low ≤ high → (low ≤ (draw low high w).0) × ((draw low high w).0 ≤ high)

char_at-Mem :
    (s : Bytes) (low i : ℕ)
    → low ≤ i
    → i < length s
    → (c : ℕ) × (char_at s i ≡ some c) × Memᴰ c (drop low s)
unfolding char_at
char_at-Mem [] low i h k = absurd (omega arith)
char_at-Mem (c ∷ s) zero zero h k = (c, refl, Memᴰ.head refl)
char_at-Mem (c ∷ s) zero (suc i) h k =
    let (d, e, m) = char_at-Mem s zero i (omega arith) (omega arith) in (d, e, Memᴰ.tail m)
char_at-Mem (c ∷ s) (suc low) zero h k = absurd (omega arith)
char_at-Mem (c ∷ s) (suc low) (suc i) h k = char_at-Mem s low i (omega arith) (omega arith)

-- A key of a length with letters of the table from a position on.
unfoldable pub IsKey : ℕ → ℕ → Bytes → Type 0
IsKey low n key = (length key ≡ n) × All (λ c. Memᴰ c (drop low chars)) key

module _ {W : Type 0} (draw : ℕ → ℕ → W → ℕ × W) (between : IsBetween draw) where
  random_key-next :
      (low n : ℕ) (w : W) (c : ℕ) (key : Bytes)
      → char_at chars (draw low (length chars - 1) w).0 ≡ some c
      → (random_key draw low (length chars - 1) n (draw low (length chars - 1) w).1).0 ≡ some key
      → (random_key draw low (length chars - 1) (suc n) w).0 ≡ some (c ∷ key)
  unfolding random_key
  random_key-next low n w c key e f = rw (random_key, e, f) refl

  random_key-IsKey :
      (low n : ℕ) (w : W)
      → low < length chars
      → (key : Bytes) × ((random_key draw low (length chars - 1) n w).0 ≡ some key)
        × IsKey low n key
  unfolding random_key IsKey IsBetween
  random_key-IsKey low zero w h = ([], refl, (refl, tt))
  random_key-IsKey low (suc n) w h =
      let last : ℕ = length chars - 1 in
      let (at_least, at_most) = between low last w (omega arith) in
      let (c, e, m) = char_at-Mem chars low (draw low last w).0 at_least (omega arith) in
      let (key, f, (size, letters)) = random_key-IsKey low n (draw low last w).1 h in
      (c ∷ key, random_key-next low n w c key e f, (omega arith, (m, letters)))

  print_key-line :
      (low n : ℕ) (w : W) (key : Bytes)
      → (random_key draw low (length chars - 1) n w).0 ≡ some key
      → (print_key draw true low n true w).0 ≡ some (key ++ codes "\n")
  unfolding print_key
  print_key-line low n w key e = rw (print_key, e) refl

  -- If every number drawn is between its bounds, the program without arguments reads no character outside
  -- its table: it prints a line with 18 letters, none of them in lower case, and a line with 36 letters of
  -- the whole table, and its exit status is 0.
  pub generate_s3_credentials-IsKey :
      (program : Bytes) (w : W)
      → (access : Bytes) × (secret : Bytes) × ((generate_s3_credentials draw program [] w).0
          ≡ exited 0 ((access ++ codes "\n") ++ (secret ++ codes "\n")))
        × IsKey 26 18 access
        × IsKey 0 36 secret
  unfolding generate_s3_credentials print_keys key_exit
  generate_s3_credentials-IsKey program w =
      let (access, ea, ha) = random_key-IsKey 26 18 w (omega arith) in
      let w1 = (print_key draw true 26 18 true w).1 in
      let (secret, es, hs) = random_key-IsKey 0 36 w1 (omega arith) in
      (
        access,
        secret,
        rw (print_key-line 26 18 w access ea, print_key-line 0 36 w1 secret es) refl,
        ha,
        hs,
      )
