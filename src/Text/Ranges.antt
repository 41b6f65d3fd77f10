-- ===== src/Text/Ranges.antt =====
-- `SplitIterator` and `SplitRange` of lib/include/utility.h. `none` is `npos`.
pub mod Pieces
pub mod Plain
use s3client.Common.{
  ℕ, zero, suc, ◌+◌, ◌-◌, List, [], ◌∷◌, Bytes, Option, none, some, Bool, true, false, ltb,
  if◌then◌else◌, length, take, drop,
}
use s3client.Hash.Utility.{◌>>=◌}
use s3client.Text.Split.{is_delimiter}

-- `find_first_of`, over what is left from position `i` on.
unfoldable pub find_from : Bytes → ℕ → Bytes → Option ℕ
find_from delims i [] = none
find_from delims i (c ∷ str) =
    let rest = find_from delims (i + 1) str in if is_delimiter delims c then some i else rest

unfoldable pub find_first_of : Bytes → Bytes → ℕ → Option ℕ
find_first_of str delims pos = find_from delims pos (drop pos str)

pub record SplitIterator : Type 0 where
  pub str : Bytes
  pub delims : Bytes
  pub cur : Option ℕ
  pub prev : Option ℕ

unfoldable pub split_begin : Bytes → Bytes → SplitIterator
split_begin str delims = record {
  str = str;
  delims = delims;
  cur = find_first_of str delims 0;
  prev = some 0;
}

-- `operator++`: the width of all delimiters is left out, not that of the one that was found.
unfoldable pub next_split : SplitIterator → SplitIterator
next_split it = elim (it.cur) [
  | none ↦ record it { prev = none }
  | some cur ↦ record it {
    prev = some (cur + length it.delims);
    cur = find_first_of it.str it.delims (cur + length it.delims);
  }
]

-- The comparison with `end()`.
unfoldable pub is_end : SplitIterator → Bool
is_end it = elim (it.cur) [
  | some cur ↦ false
  | none ↦ elim (it.prev) [ none ↦ true | some prev ↦ false ]
]

unfoldable pub stop_of : SplitIterator → ℕ
stop_of it = elim (it.cur) [
  | none ↦ length it.str
  | some cur ↦ if ltb (length it.str) cur then length it.str else cur
]

-- `operator*`; `substr` throws behind the end.
unfoldable pub split_value : SplitIterator → Option Bytes
split_value it = elim (it.prev) [
  | none ↦ none
  | some prev ↦
      if ltb (length it.str) prev then none else some (take (stop_of it - prev) (drop prev it.str))
]

-- The loop over a range. The fuel is a round for each piece and one for the end.
unfoldable pub split_loop : ℕ → SplitIterator → Option (List Bytes)
split_loop zero it = none
split_loop (suc fuel) it =
    let rest = split_loop fuel (next_split it) in
    if is_end it
    then some []
    else split_value it >>= λ piece. rest >>= λ pieces. some (piece ∷ pieces)

unfoldable pub split_range : Bytes → Bytes → Option (List Bytes)
split_range str delims = split_loop (length str + 2) (split_begin str delims)
