-- ===== src/Common/Dict.antt =====
-- `std::map<std::string, V>`: an association list in the order of its keys, which are compared byte
-- by byte. `insert` leaves a present key alone.
mod Lex
pub mod Laws
unfoldable pub use Lex.*
use s3client.Common.Tests.{Bytes, if◌then◌else◌}
use mathlib.Core.Path.{◌≡◌}
use mathlib.Core.Bool.{Bool, true, false}
use mathlib.Core.Option.{Option, none, some}
use mathlib.Core.List.{List, [], ◌∷◌, ◌++◌}

abbrev pub Dict {ℓ} : Type ℓ → Type ℓ
Dict V = List (Bytes × V)

module _ {ℓ} {V : Type ℓ} where
  unfoldable pub insert : Bytes → V → Dict V → Dict V
  insert k v [] = (k, v) ∷ []
  insert k v ((j, w) ∷ m) =
      if lex_lt k j
      then (k, v) ∷ (j, w) ∷ m
      else if lex_lt j k
      then (j, w) ∷ insert k v m
      else (j, w) ∷ m

  -- `m[k] = v`.
  unfoldable pub assign : Bytes → V → Dict V → Dict V
  assign k v [] = (k, v) ∷ []
  assign k v ((j, w) ∷ m) =
      if lex_lt k j
      then (k, v) ∷ (j, w) ∷ m
      else if lex_lt j k
      then (j, w) ∷ assign k v m
      else (k, v) ∷ m

  -- `m.insert(begin(n), end(n))`.
  unfoldable pub insert_all : Dict V → Dict V → Dict V
  insert_all [] m = m
  insert_all ((k, v) ∷ n) m = insert_all n (insert k v m)

  unfoldable pub lookup : Bytes → Dict V → Option V
  lookup k [] = none
  lookup k ((j, w) ∷ m) = if lex_lt k j then none else if lex_lt j k then lookup k m else some w

  -- Values added behind those at a key, of a map to vectors.
  unfoldable pub extend : Bytes → List V → Dict (List V) → Dict (List V)
  extend k vs [] = (k, vs) ∷ []
  extend k vs ((j, w) ∷ m) =
      if lex_lt k j
      then (k, vs) ∷ (j, w) ∷ m
      else if lex_lt j k
      then (j, w) ∷ extend k vs m
      else (j, w ++ vs) ∷ m

  -- The vector at a key, empty where the map has none.
  unfoldable pub lookup_all : Bytes → Dict (List V) → List V
  lookup_all k [] = []
  lookup_all k ((j, w) ∷ m) = if lex_lt k j then [] else if lex_lt j k then lookup_all k m else w

  unfoldable pub keys : Dict V → List Bytes
  keys [] = []
  keys ((k, v) ∷ m) = k ∷ keys m

-- Strictly increasing keys.
abbrev pub Above : Bytes → List Bytes → Type 0
Above k [] = Unit
Above k (j ∷ ks) = lex_lt k j ≡ true

abbrev pub Sorted : List Bytes → Type 0
Sorted [] = Unit
Sorted (k ∷ ks) = Above k ks × Sorted ks
