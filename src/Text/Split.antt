-- ===== src/Text/Split.antt =====
-- `Split` of lib/include/utility.h. `find_first_of` and `substr` walk from one delimiter to the next;
-- here the walk is byte by byte, with the bytes since the last delimiter in `field`.
use s3client.Common.{
  ℕ, zero, suc, List, [], ◌∷◌, ◌++◌, Bytes, Option, none, some, Bool, true, false, ◌==◌, ◌||◌, ◌&&◌,
}

unfoldable pub is_delimiter : Bytes → ℕ → Bool
is_delimiter [] c = false
is_delimiter (d ∷ delims) c = c == d || is_delimiter delims c

-- The delimiters that may still be parsed, `count - i`; `none` is the default `npos`.
unfoldable pub some_left : Option ℕ → Bool
some_left none = true
some_left (some zero) = false
some_left (some (suc n)) = true

unfoldable pub one_less : Option ℕ → Option ℕ
one_less none = none
one_less (some zero) = some zero
one_less (some (suc n)) = some n

unfoldable pub split_walk : Bytes → Option ℕ → Bytes → Bytes → List Bytes
split_walk delims left field [] = field ∷ []
split_walk delims left field (c ∷ str) = elim (is_delimiter delims c && some_left left) [
  | true ↦ field ∷ split_walk delims (one_less left) [] str
  | false ↦ split_walk delims left (field ++ c ∷ []) str
]

unfoldable pub split : Bytes → Bytes → Option ℕ → List Bytes
split str delims count = split_walk delims count [] str
