-- ===== src/Apps/Upload/MetaData.antt =====
-- The metadata of an upload, written as names and values.
use s3client.Common.{
  List, [], ◌∷◌, ◌++◌, Bytes, none, some, false, codes, length, ◌≡◌, refl, All, All-append,
}
use s3client.Common.Dict.{Dict, assign}
use s3client.Text.Url.{to_lower}
use s3client.Text.Split.{split_walk, split}
use s3client.Text.Ranges.{split_begin, find_first_of, next_split, split_value}
use s3client.Text.Ranges.Pieces.{
  standing, piece_value, piece_next, standing-end, last_value, split_range-split,
}
use s3client.Text.Ranges.Plain.{
  IsPlain, find_from-IsPlain, find_from-before, split_walk-IsPlain, split_walk-before,
}
use s3client.Sign.{is_empty}
use s3client.Apps.Upload.{meta_entry, meta_entries, meta_data_of}

unfoldable pub meta_piece : Bytes × Bytes → Bytes
meta_piece (k, v) = k ++ 58 ∷ v

unfoldable pub meta_text : Bytes × Bytes → List (Bytes × Bytes) → Bytes
meta_text p [] = meta_piece p
meta_text p (q ∷ ps) = meta_piece p ++ 59 ∷ meta_text q ps

-- A later value in place of an earlier one with its name.
unfoldable pub meta_dict : List (Bytes × Bytes) → Dict Bytes → Dict Bytes
meta_dict [] mm = mm
meta_dict ((k, v) ∷ ps) mm = meta_dict ps (assign (codes "x-amz-meta-" ++ to_lower k) v mm)

-- Neither `:` nor `;`.
abbrev pub IsMetaText : Bytes → Type 0
IsMetaText s = IsPlain 58 s × IsPlain 59 s

unfoldable pub AreMeta : List (Bytes × Bytes) → Type 0
AreMeta = All (λ p. IsMetaText p.0 × IsMetaText p.1)

meta_entry-piece :
    (k v : Bytes) → IsPlain 58 k → IsPlain 58 v → meta_entry (meta_piece (k, v)) ≡ some (k, v)
unfolding meta_entry meta_piece split_begin find_first_of standing
meta_entry-piece k v hk hv =
    let at_k = find_from-before 58 0 k v hk in
    let first : split_value (standing 58 [] (k ++ 58 ∷ v)) ≡ some k =
      piece_value 58 [] k v 58 at_k in
    let next : next_split (standing 58 [] (k ++ 58 ∷ v)) ≡ standing 58 (k ++ 58 ∷ []) v =
      piece_next 58 [] k v 58 at_k in
    let second =
      last_value 58 (k ++ 58 ∷ []) v (find_from-IsPlain 58 (length (k ++ 58 ∷ [])) v hv) in
    rw (first, next, standing-end 58 (k ++ 58 ∷ []) v, second) refl

piece-IsPlain : (k v : Bytes) → IsPlain 59 k → IsPlain 59 v → IsPlain 59 (meta_piece (k, v))
unfolding meta_piece
piece-IsPlain k v hk hv = All-append _ k (58 ∷ v) hk (refl, hv)

text_pieces :
    (p : Bytes × Bytes) (ps : List (Bytes × Bytes)) (mm : Dict Bytes)
    → AreMeta (p ∷ ps)
    → meta_entries (split_walk (59 ∷ []) none [] (meta_text p ps)) mm ≡ some (meta_dict (p ∷ ps) mm)
unfolding AreMeta meta_text meta_entries meta_dict
text_pieces (k, v) [] mm (((ka, kb), (va, vb)), h) =
    rw
      (
        split_walk-IsPlain 59 [] (meta_piece (k, v)) (piece-IsPlain k v kb vb),
        meta_entry-piece k v ka va,
      )
      refl
text_pieces (k, v) (q ∷ ps) mm (((ka, kb), (va, vb)), h) =
    rw
      (
        split_walk-before 59 [] (meta_piece (k, v)) (meta_text q ps) (piece-IsPlain k v kb vb),
        meta_entry-piece k v ka va,
      )
      (text_pieces q ps _ h)

some_text : (p : Bytes × Bytes) (ps : List (Bytes × Bytes)) → is_empty (meta_text p ps) ≡ false
unfolding meta_text meta_piece is_empty
some_text ([], v) [] = refl
some_text (c ∷ k, v) [] = refl
some_text ([], v) (q ∷ ps) = refl
some_text (c ∷ k, v) (q ∷ ps) = refl

-- The upload program reads back one or more names with their values, which are written with `:` between
-- them and `;` behind each but the last, if none of them has one of these letters: each name in lower
-- case behind `x-amz-meta-`, a later value in place of an earlier one with its name.
pub meta_data_of-meta_text :
    (p : Bytes × Bytes) (ps : List (Bytes × Bytes))
    → AreMeta (p ∷ ps)
    → meta_data_of (meta_text p ps) ≡ some (meta_dict (p ∷ ps) [])
unfolding meta_data_of split
meta_data_of-meta_text p ps h =
    rw (some_text p ps, split_range-split (meta_text p ps) 59) (text_pieces p ps [] h)
