-- ===== src/Xml/Path.antt =====
-- Paths of lib/src/xml_path.cpp, and its trimming of texts.
use s3client.Common.{
  ℕ, List, [], ◌∷◌, ◌++◌, Bytes, Bool, true, false, ◌==◌, ◌||◌, ◌&&◌, leb, if◌then◌else◌, Option,
  none, some,
}
use mathlib.Core.List.{reverse}

-- `isspace`.
unfoldable pub is_space : ℕ → Bool
is_space c = c == 32 || leb 9 c && leb c 13

unfoldable pub skip_spaces : Bytes → Bytes
skip_spaces [] = []
skip_spaces (c ∷ s) = let rest = skip_spaces s in if is_space c then rest else c ∷ s

-- `Trim`. On a text of blanks the end is moved before the start, and the constructor of the result
-- throws, which is `none`; an empty text is left empty.
pub trim : Bytes → Option Bytes
trim [] = some []
trim (c ∷ s) = elim (skip_spaces (c ∷ s)) [
  | [] ↦ none
  | d ∷ t ↦ some (reverse (skip_spaces (reverse (d ∷ t))))
]

-- `getline` up to `/`, with the empty pieces left out; `piece` is what was read of the next one.
unfoldable pub parse_path_from : Bytes → Bytes → List Bytes
parse_path_from [] [] = []
parse_path_from (b ∷ piece) [] = (b ∷ piece) ∷ []
parse_path_from piece (c ∷ s) = elim (c == 47) [
  | false ↦ parse_path_from (piece ++ c ∷ []) s
  | true ↦ elim piece [ [] ↦ parse_path_from [] s | b ∷ bs ↦ (b ∷ bs) ∷ parse_path_from [] s ]
]

unfoldable pub parse_path : Bytes → List Bytes
parse_path path = parse_path_from [] path

unfoldable pub to_path : List Bytes → Bytes
to_path [] = []
to_path (n ∷ v) = (47 ∷ n) ++ to_path v
