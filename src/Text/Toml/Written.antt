-- ===== src/Text/Toml/Written.antt =====
-- What `ParseTomlFile` reads from a file of sections of keys with values, written line by line.
use s3client.Common.{
  ℕ, List, [], ◌∷◌, ◌++◌, Bytes, Option, none, some, true, false, Bool-cases, ◌≡◌, refl, sym, arith,
  All, append_assoc,
}
use s3client.Hash.Utility.{◌>>=◌}
use mathlib.Core.Logic.{◌⊎◌, inl, inr}
use s3client.Common.Dict.{Dict, insert, assign, lookup, lex_lt_irrefl}
use s3client.Sign.{is_empty}
use s3client.Text.Headers.{is_word}
use s3client.Text.Toml.{
  last_line, lines_from, TomlState, entry, start_section, add_key, toml_line, toml_loop,
  last_section, no_toml, parse_toml,
}
use s3client.Text.Toml.Lines.{
  is_visible, is_name, Passes, Pair, section_line, pair_line, trim_line-All, section_of-line,
  section_line-comment, key_value-line, pair_line-plain, lines-pair, lines-section,
}

-- The keys with their values, each line with its end.
pub pairs_text : List Pair → Bytes
pairs_text [] = []
pairs_text ((k, v) ∷ ps) = pair_line k v ++ 10 ∷ pairs_text ps

unfoldable pub ArePairs : List Pair → Type 0
ArePairs = All (λ p. Passes is_word p.0 × Passes is_visible p.1)

-- The entries of the pairs, a later one in place of an earlier one with its key.
unfoldable pub assign_all : List Pair → Dict Bytes → Dict Bytes
assign_all [] d = d
assign_all ((k, v) ∷ ps) d = assign_all ps (assign k v d)

-- The value of the last key is there, if there is a last key.
IsReady : TomlState → Type 0
IsReady s =
    (is_empty s.last_key ≡ true)
    ⊎ ((b : ℕ) × (w : Bytes) × (lookup s.last_key s.values ≡ some (b ∷ w)))

lookup-assign : (k : Bytes) (v : Bytes) (m : Dict Bytes) → lookup k (assign k v m) ≡ some v
unfolding lookup assign
lookup-assign k v [] = rw (lookup, lex_lt_irrefl k) refl
lookup-assign k v ((j, w) ∷ m) = ground (arith, lex_lt_irrefl k, lookup-assign k v m)

add_key-IsReady :
    (k v : Bytes) (s : TomlState)
    → IsReady s
    → add_key k v s ≡ record s { values = assign k v s.values; last_key = k }
unfolding add_key entry IsReady is_empty
add_key-IsReady k v s (inl e) = rw (add_key, e) refl
add_key-IsReady k v s (inr (b, w, e)) = elim (Bool-cases (is_empty s.last_key)) [
  | inl f ↦ rw (add_key, f) refl
  | inr f ↦ rw (add_key, f, entry, e) refl
]

toml_line-pair :
    (k v : Bytes) (s : TomlState)
    → Passes is_word k
    → Passes is_visible v
    → IsReady s
    → toml_line (pair_line k v) s ≡ some (record s { values = assign k v s.values; last_key = k })
unfolding toml_line Passes
toml_line-pair k v s hk hv ready =
    rw
      (
        toml_line,
        (pair_line-plain k v hk).0,
        (pair_line-plain k v hk).1,
        key_value-line k v hk hv.1,
        trim_line-All v hv.1,
        add_key-IsReady k v s ready,
      )
      refl

toml_line-section :
    (n : Bytes) (s : TomlState)
    → Passes is_name n
    → toml_line (section_line n) s ≡ some (start_section n s)
unfolding toml_line
toml_line-section n s h = rw (toml_line, section_line-comment n, section_of-line n h) refl

-- The state behind the lines of the pairs.
after_pairs : List Pair → TomlState → TomlState
after_pairs [] s = s
after_pairs ((k, v) ∷ ps) s =
    after_pairs ps (record s { values = assign k v s.values; last_key = k })

after_pairs-fields :
    (ps : List Pair) (s : TomlState)
    → ((after_pairs ps s).toml ≡ s.toml)
      × (((after_pairs ps s).cur_section ≡ s.cur_section)
          × ((after_pairs ps s).values ≡ assign_all ps s.values))
unfolding after_pairs assign_all
after_pairs-fields [] s = (refl, (refl, refl))
after_pairs-fields ((k, v) ∷ ps) s = after_pairs-fields ps _

assigned-IsReady :
    (k v : Bytes) (s : TomlState)
    → Passes is_visible v
    → IsReady (record s { values = assign k v s.values; last_key = k })
unfolding IsReady Passes is_empty
assigned-IsReady k [] s (h, hs) = absurd (cc h)
assigned-IsReady k (b ∷ w) s h = inr (b, w, lookup-assign k (b ∷ w) s.values)

toml_loop-pairs :
    (ps : List Pair) (rest : Bytes) (s : TomlState)
    → ArePairs ps
    → IsReady s
    → toml_loop (lines_from [] (pairs_text ps ++ rest)) s
      ≡ toml_loop (lines_from [] rest) (after_pairs ps s)
unfolding toml_loop pairs_text after_pairs ArePairs
toml_loop-pairs [] rest s h ready = refl
toml_loop-pairs ((k, v) ∷ ps) rest s ((hk, hv), hs) ready =
    rw
      (
        append_assoc (pair_line k v) (10 ∷ pairs_text ps) rest,
        lines-pair k v (pairs_text ps ++ rest) hk hv,
        toml_loop,
        toml_line-pair k v s hk hv ready,
      )
      (toml_loop-pairs ps rest _ hs (assigned-IsReady k v s hv))

abbrev pub Section : Type 0
Section = Bytes × List Pair

pub file_text : List Section → Bytes
file_text [] = []
file_text ((n, ps) ∷ secs) = section_line n ++ 10 ∷ (pairs_text ps ++ file_text secs)

unfoldable pub AreSections : List Section → Type 0
AreSections = All (λ s. Passes is_name s.0 × ArePairs s.1)

-- The entries of the section `n` and of those behind it: each is assigned, the last one is inserted.
unfoldable pub read_sections :
    Bytes → List Pair → List Section → Dict (Dict Bytes) → Dict (Dict Bytes)
read_sections n ps [] d = insert n (assign_all ps []) d
read_sections n ps ((m, qs) ∷ secs) d = read_sections m qs secs (assign n (assign_all ps []) d)

insert_present :
    {V : Type 0} (k : Bytes) (v w : V) (m : Dict V) → lookup k m ≡ some w → insert k v m ≡ m
unfolding lookup insert
insert_present k v w [] h = absurd (cc h)
insert_present k v w ((j, u) ∷ m) h = ground (arith, insert_present k v w m)

insert_missing :
    {V : Type 0} (k : Bytes) (v : V) (m : Dict V) → lookup k m ≡ none → insert k v m ≡ assign k v m
unfolding lookup insert assign
insert_missing k v [] h = refl
insert_missing k v ((j, u) ∷ m) h = ground (arith, insert_missing k v m)

last_section-insert : (s : TomlState) → last_section s ≡ insert s.cur_section s.values s.toml
unfolding last_section
last_section-insert s = closed (lookup s.cur_section s.toml) refl
  where
    closed :
        (o : Option (Dict Bytes))
        → lookup s.cur_section s.toml ≡ o
        → elim o [ some values ↦ s.toml | none ↦ assign s.cur_section s.values s.toml ]
          ≡ insert s.cur_section s.values s.toml
    closed none e = sym (insert_missing s.cur_section s.values s.toml e)
    closed (some w) e = sym (insert_present s.cur_section s.values w s.toml e)

abbrev in_section : Bytes → Dict (Dict Bytes) → TomlState
in_section n d = record { toml = d; cur_section = n; values = []; last_key = [] }

in_section-IsReady : (n : Bytes) (d : Dict (Dict Bytes)) → IsReady (in_section n d)
unfolding IsReady is_empty
in_section-IsReady n d = inl refl

start_section-after :
    (n m : Bytes) (ps : List Pair) (d : Dict (Dict Bytes))
    → is_empty n ≡ false
    → start_section m (after_pairs ps (in_section n d))
      ≡ in_section m (assign n (assign_all ps []) d)
unfolding start_section
start_section-after n m ps d h =
    let f = after_pairs-fields ps (in_section n d) in rw (start_section, f.0, f.1.0, f.1.1, h) refl

start_section-first : (n : Bytes) → start_section n no_toml ≡ in_section n []
unfolding start_section no_toml is_empty
start_section-first n = refl

read_loop : Bytes → TomlState → Option (Dict (Dict Bytes))
read_loop text s = do t ← toml_loop (lines_from [] text) s; some (last_section t)

read_loop-sections :
    (n : Bytes) (ps : List Pair) (secs : List Section) (d : Dict (Dict Bytes))
    → is_empty n ≡ false
    → ArePairs ps
    → AreSections secs
    → read_loop (pairs_text ps ++ file_text secs) (in_section n d)
      ≡ some (read_sections n ps secs d)
unfolding read_loop file_text AreSections read_sections Passes toml_loop lines_from last_line
read_loop-sections n ps [] d h hp hs =
    let f = after_pairs-fields ps (in_section n d) in
    rw
      (
        read_loop,
        toml_loop-pairs ps [] (in_section n d) hp (in_section-IsReady n d),
        last_section-insert (after_pairs ps (in_section n d)),
        f.0,
        f.1.0,
        f.1.1,
      )
      refl
read_loop-sections n ps ((m, qs) ∷ secs) d h hp ((hm, hq), hs) =
    rw
      (
        read_loop,
        toml_loop-pairs ps (file_text ((m, qs) ∷ secs)) (in_section n d) hp
            (in_section-IsReady n d),
        lines-section m (pairs_text qs ++ file_text secs) hm,
        toml_loop,
        toml_line-section m (after_pairs ps (in_section n d)) hm,
        start_section-after n m ps d h,
      )
      (read_loop-sections m qs secs (assign n (assign_all ps []) d) hm.0 hq hs)

-- `ParseTomlFile` reads back a file of one or more sections, each a line with its name and a line for
-- each key with its value, if the names and the keys are not empty and of their letters and the values
-- have neither blanks nor `#` and are not empty: it returns the entries of the sections. Of two
-- sections with one name the later replaces the earlier, but the last of the file is then left out.
pub parse_toml-file_text :
    (n : Bytes) (ps : List Pair) (secs : List Section)
    → AreSections ((n, ps) ∷ secs)
    → parse_toml (file_text ((n, ps) ∷ secs)) ≡ some (read_sections n ps secs [])
unfolding parse_toml read_loop file_text AreSections Passes toml_loop
parse_toml-file_text n ps secs ((hn, hp), hs) =
    rw
      (
        parse_toml,
        lines-section n (pairs_text ps ++ file_text secs) hn,
        toml_loop,
        toml_line-section n no_toml hn,
        start_section-first n,
      )
      (read_loop-sections n ps secs [] hn.0 hp hs)
