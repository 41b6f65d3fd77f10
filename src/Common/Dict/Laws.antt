-- ===== src/Common/Dict/Laws.antt =====
-- The laws of the map: what `insert` and `assign` leave to be found, and the order of the keys.
use s3client.Common.Tests.{Bytes, if◌then◌else◌, Bool-cases}
use s3client.Common.Dict.Lex.{lex_lt, lex_lt_irrefl, lex_lt_trans, lex_lt-tri, lex_lt-asymm}
use s3client.Common.Dict.{Dict, insert, insert_all, lookup, lookup_all, extend, keys, Above, Sorted}
use mathlib.Core.Path.{◌≡◌}
use mathlib.Core.Logic.{inl, inr}
use mathlib.Core.Bool.{true}
use mathlib.Core.Option.{Option, none, some}
use mathlib.Core.List.{List, [], ◌∷◌, ◌++◌}
use native.Mathlib.Omega.{arith}

module _ {V : Type 0} where
  unfoldable pub present_or : Option V → V → V
  present_or none v = v
  present_or (some w) v = w

  pub lookup-insert :
      (j k : Bytes) (v : V) (m : Dict V)
      → lookup j (insert k v m) ≡ (
          if lex_lt j k
          then lookup j m
          else if lex_lt k j
          then lookup j m
          else some (present_or (lookup k m) v))
  unfolding lookup insert present_or
  lookup-insert j k v [] = ground arith
  lookup-insert j k v ((i, w) ∷ m) = ground (
    arith,
    lookup-insert j k v m,
    lex_lt-tri i k,
    lex_lt-tri j i,
    lex_lt-tri j k,
    lex_lt_irrefl k,
    lex_lt_trans j k i,
    lex_lt_trans j i k,
    lex_lt-asymm i k,
    lex_lt-asymm j i,
    lex_lt-asymm j k,
    lex_lt_trans k j i,
  )

  pub lookup_all-extend :
      (j k : Bytes) (v : List V) (m : Dict (List V))
      → lookup_all j (extend k v m) ≡ (
          if lex_lt j k
          then lookup_all j m
          else if lex_lt k j
          then lookup_all j m
          else lookup_all j m ++ v)
  unfolding lookup_all extend
  lookup_all-extend j k v [] = ground arith
  lookup_all-extend j k v ((i, w) ∷ m) = ground (
    arith,
    lookup_all-extend j k v m,
    lex_lt-tri i k,
    lex_lt-tri j i,
    lex_lt-tri j k,
    lex_lt_irrefl k,
    lex_lt_trans j k i,
    lex_lt_trans j i k,
    lex_lt-asymm i k,
    lex_lt-asymm j i,
    lex_lt-asymm j k,
    lex_lt_trans k j i,
  )

  Above-insert :
      (i k : Bytes) (v : V) (m : Dict V)
      → lex_lt i k ≡ true
      → Above i (keys m)
      → Above i (keys (insert k v m))
  unfolding insert keys
  Above-insert i k v [] h a = h
  Above-insert i k v ((j, w) ∷ m) h a = elim (Bool-cases (lex_lt k j)) [
    | inl e ↦ rw e h
    | inr e ↦ rw e (elim (Bool-cases (lex_lt j k)) [ inl e' ↦ rw e' a | inr e' ↦ rw e' a ])
  ]

  -- `insert` keeps the keys in strictly increasing order.
  pub insert-Sorted :
      (k : Bytes) (v : V) (m : Dict V) → Sorted (keys m) → Sorted (keys (insert k v m))
  unfolding insert keys
  insert-Sorted k v [] h = (tt, tt)
  insert-Sorted k v ((j, w) ∷ m) (a, s) = elim (Bool-cases (lex_lt k j)) [
    | inl e ↦ rw e (e, (a, s))
    | inr e ↦ rw e (elim (Bool-cases (lex_lt j k)) [
      | inl e' ↦ rw e' (Above-insert j k v m e' a, insert-Sorted k v m s)
      | inr e' ↦ rw e' (a, s)
    ])
  ]

  pub insert_all-Sorted : (n m : Dict V) → Sorted (keys m) → Sorted (keys (insert_all n m))
  unfolding insert_all
  insert_all-Sorted [] m h = h
  insert_all-Sorted ((k, v) ∷ n) m h = insert_all-Sorted n (insert k v m) (insert-Sorted k v m h)
