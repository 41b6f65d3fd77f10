-- ===== src/Text/Ranges/Plain.antt =====
-- Texts without a delimiter, and what ranges and `Split` make of them.
use s3client.Common.{
  ℕ, ◌+◌, [], ◌∷◌, ◌++◌, Bytes, none, some, true, false, ◌==◌, length, ◌≡◌, refl, ap, ◌∙◌, arith,
  All, append_assoc, append-nil,
}
use s3client.Text.Split.{is_delimiter, some_left, one_less, split_walk}
use s3client.Text.Ranges.{find_from}

abbrev pub IsPlain : ℕ → Bytes → Type 0
IsPlain d = All (λ c. (c == d) ≡ false)

delimiter_self : (d : ℕ) → (d == d) ≡ true
delimiter_self d = ground arith

pub find_from-IsPlain : (d i : ℕ) (s : Bytes) → IsPlain d s → find_from (d ∷ []) i s ≡ none
unfolding find_from is_delimiter
find_from-IsPlain d i [] h = refl
find_from-IsPlain d i (c ∷ s) (h, hs) = rw (h, find_from-IsPlain d (i + 1) s hs) refl

pub find_from-before :
    (d i : ℕ) (a b : Bytes) → IsPlain d a → find_from (d ∷ []) i (a ++ d ∷ b) ≡ some (i + length a)
unfolding find_from is_delimiter
find_from-before d i [] b h = rw (delimiter_self d) (ap some (omega arith))
find_from-before d i (c ∷ a) b (h, hs) =
    rw h (find_from-before d (i + 1) a b hs ∙ ap some (omega arith))

pub split_walk-IsPlain :
    (d : ℕ) (field s : Bytes) → IsPlain d s → split_walk (d ∷ []) none field s ≡ (field ++ s) ∷ []
unfolding split_walk is_delimiter some_left one_less
split_walk-IsPlain d field [] h = rw (append-nil field) refl
split_walk-IsPlain d field (c ∷ s) (h, hs) =
    rw (split_walk, h)
      (split_walk-IsPlain d (field ++ c ∷ []) s hs
        ∙ ap (λ (t : Bytes). t ∷ []) (append_assoc field (c ∷ []) s))

pub split_walk-before :
    (d : ℕ) (field a b : Bytes)
    → IsPlain d a
    → split_walk (d ∷ []) none field (a ++ d ∷ b) ≡ (field ++ a) ∷ split_walk (d ∷ []) none [] b
unfolding split_walk is_delimiter some_left one_less
split_walk-before d field [] b h = rw (split_walk, delimiter_self d, append-nil field) refl
split_walk-before d field (c ∷ a) b (h, hs) =
    rw (split_walk, h)
      (split_walk-before d (field ++ c ∷ []) a b hs
        ∙ ap (λ (t : Bytes). t ∷ split_walk (d ∷ []) none [] b) (append_assoc field (c ∷ []) a))
