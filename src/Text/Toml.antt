-- ===== src/Text/Toml.antt =====
-- `TrimLine` and `ParseTomlFile` of lib/src/utility.cpp, on the text of the file. Its regular expressions
-- are written out: each is searched in a line, which has no line feed.
pub mod Lines
pub mod Written
mod Examples
use s3client.Common.{
  ℕ, List, [], ◌∷◌, ◌++◌, Bytes, Option, none, some, Bool, true, false, not, ◌&&◌, ◌||◌, ◌==◌,
  if◌then◌else◌, codes, length, drop,
}
use s3client.Common.Dict.{Dict, assign, lookup}
use s3client.Hash.Utility.{◌>>=◌}
use s3client.Sign.{is_empty}
use s3client.Xml.Path.{is_space, skip_spaces}
use s3client.Text.Headers.{run_of, is_word}

-- Up to the first `#`, and without the blanks at the end; a text of blanks is left as it is.
unfoldable pub without_blanks : Bytes → Bytes
without_blanks [] = []
without_blanks (c ∷ s) =
    let rest = without_blanks s in
    if (c == 32 || (c == 13 || (c == 10 || c == 9))) && is_empty rest then [] else c ∷ rest

unfoldable pub trim_line : Bytes → Bytes
trim_line s =
    let t = run_of (λ c. not (c == 35)) s in elim (without_blanks t) [ [] ↦ t | c ∷ u ↦ c ∷ u ]

-- The calls of `getline`; `piece` is what was read of the next line.
unfoldable pub last_line : Bytes → List Bytes
last_line [] = []
last_line (b ∷ piece) = (b ∷ piece) ∷ []

unfoldable pub lines_from : Bytes → Bytes → List Bytes
lines_from piece [] = last_line piece
lines_from piece (c ∷ s) = elim (c == 10) [
  | true ↦ piece ∷ lines_from [] s
  | false ↦ lines_from (piece ++ c ∷ []) s
]

-- `^\\s*#`, and lines that are empty.
pub is_comment : Bytes → Bool
is_comment line = is_empty line || starts_comment (skip_spaces line)
  where
    starts_comment : Bytes → Bool
    starts_comment [] = false
    starts_comment (c ∷ s) = c == 35

-- `^\\s*\\[\\s*([^\\]]+)\\]\\s*$`. Of blanks alone the name is the last one.
pub section_name : Bytes → Bytes → Option Bytes
section_name inside behind = elim behind [
  | [] ↦ none
  | c ∷ rest ↦
      if is_empty (skip_spaces rest)
      then (elim (skip_spaces inside) [
        | [] ↦ elim inside [ [] ↦ none | d ∷ blanks ↦ some (drop (length blanks) (d ∷ blanks)) ]
        | d ∷ name ↦ some (d ∷ name)
      ])
      else none
]

pub section_of : Bytes → Option Bytes
section_of line = elim (skip_spaces line) [
  | [] ↦ none
  | c ∷ s ↦
      let inside = run_of (λ d. not (d == 93)) s in
      if c == 91 then section_name inside (drop (length inside) s) else none
]

-- `(.*)`, which does not match a carriage return.
pub value_text : Bytes → Bytes
value_text s = run_of (λ c. not (c == 13)) (skip_spaces s)

-- `(\\w+)\\s*=\\s*(.*)` at one place.
pub key_here : Bytes → Option (Bytes × Bytes)
key_here s =
    let key = run_of is_word s in
    elim (skip_spaces (drop (length key) s)) [
      | [] ↦ none
      | c ∷ t ↦ if c == 61 && not (is_empty key) then some (key, value_text t) else none
    ]

-- The first place where it matches.
pub key_value : Bytes → Option (Bytes × Bytes)
key_value [] = none
key_value (c ∷ s) =
    let rest = key_value s in elim (key_here (c ∷ s)) [ some m ↦ some m | none ↦ rest ]

-- The variables of the loop.
pub record TomlState : Type 0 where
  pub toml : Dict (Dict Bytes)
  pub cur_section : Bytes
  pub values : Dict Bytes
  pub last_key : Bytes

-- `curSectionData[key]`, which makes an entry when there is none.
pub entry : Bytes → Dict Bytes → Bytes × Dict Bytes
entry key values = elim (lookup key values) [
  | some v ↦ (v, values)
  | none ↦ ([], assign key [] values)
]

pub start_section : Bytes → TomlState → TomlState
start_section name s = if is_empty s.cur_section then record s { cur_section = name } else record {
  toml = assign s.cur_section s.values s.toml;
  cur_section = name;
  values = [];
  last_key = [];
}

-- A key below a key without a value has that one before it.
pub add_key : Bytes → Bytes → TomlState → TomlState
add_key key value s =
    let (last, values) = entry s.last_key s.values in
    if is_empty s.last_key
    then record s { values = assign key value s.values; last_key = key }
    else if is_empty last
    then record s {
      values = assign (s.last_key ++ (codes "/" ++ key)) value values;
      last_key = key;
    }
    else record s { values = assign key value values; last_key = key }

-- A line that is neither goes on with the last value; `none` is the exception if there is none.
pub add_text : Bytes → TomlState → Option TomlState
add_text line s =
    let (last, values) = entry s.last_key s.values in
    if is_empty s.last_key
    then none
    else some (record s { values = assign s.last_key (last ++ trim_line line) values })

pub toml_line : Bytes → TomlState → Option TomlState
toml_line line s = if is_comment line then some s else elim (section_of line) [
  | some name ↦ some (start_section name s)
  | none ↦ elim (key_value line) [
    | some (key, value) ↦ some (add_key key (trim_line value) s)
    | none ↦ add_text line s
  ]
]

pub toml_loop : List Bytes → TomlState → Option TomlState
toml_loop [] s = some s
toml_loop (line ∷ lines) s = do t ← toml_line line s; toml_loop lines t

-- The data of the last section, unless it has been met before.
pub last_section : TomlState → Dict (Dict Bytes)
last_section s = elim (lookup s.cur_section s.toml) [
  | some values ↦ s.toml
  | none ↦ assign s.cur_section s.values s.toml
]

pub no_toml : TomlState
no_toml = record { toml = []; cur_section = []; values = []; last_key = [] }

-- `ParseTomlFile`.
pub parse_toml : Bytes → Option (Dict (Dict Bytes))
parse_toml content = do s ← toml_loop (lines_from [] content) no_toml; some (last_section s)
