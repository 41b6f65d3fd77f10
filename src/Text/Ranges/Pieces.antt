-- ===== src/Text/Ranges/Pieces.antt =====
-- The pieces of a range with one delimiter are those of `Split`.
use s3client.Common.{
  ℕ, zero, suc, ◌+◌, ◌-◌, ◌≤◌, List, [], ◌∷◌, ◌++◌, Bytes, Option, none, some, true, false, ltb,
  length, take_front, take_whole, drop_front, length-append, append_assoc, append-nil, ◌≡◌, refl,
  sym, ap, ◌∙◌, arith, Bool-cases,
}
use mathlib.Core.Logic.{◌⊎◌, inl, inr}
use s3client.Text.Split.{is_delimiter, some_left, one_less, split_walk, split}
use s3client.Text.Ranges.{
  find_from, find_first_of, SplitIterator, split_begin, next_split, is_end, stop_of, split_value,
  split_loop, split_range,
}

-- Either no delimiter is left, or `a` stands before the first and `b` behind it.
Found : Bytes → ℕ → Bytes → Bytes → Type 0
Found d i field s =
    ((find_from d i s ≡ none) × (split_walk d none field s ≡ (field ++ s) ∷ []))
    ⊎ ((a : Bytes) × (c : ℕ) × (b : Bytes) × (s ≡ a ++ c ∷ b)
        × (find_from d i s ≡ some (i + length a))
        × (split_walk d none field s ≡ (field ++ a) ∷ split_walk d none [] b))

walk_delimiter :
    (d : Bytes) (c : ℕ) (field s : Bytes)
    → is_delimiter d c ≡ true
    → split_walk d none field (c ∷ s) ≡ field ∷ split_walk d none [] s
unfolding split_walk some_left one_less
walk_delimiter d c field s e = rw (split_walk, e) refl

walk_other :
    (d : Bytes) (c : ℕ) (field s : Bytes)
    → is_delimiter d c ≡ false
    → split_walk d none field (c ∷ s) ≡ split_walk d none (field ++ c ∷ []) s
unfolding split_walk some_left one_less
walk_other d c field s e = rw (split_walk, e) refl

first_piece : (d : Bytes) (i : ℕ) (field s : Bytes) → Found d i field s
unfolding find_from split_walk some_left one_less Found
first_piece d i field [] = inl (refl, rw (append-nil field) refl)
first_piece d i field (c ∷ s) = elim (Bool-cases (is_delimiter d c)) [
  | inl e ↦ inr (
    [],
    c,
    s,
    refl,
    rw e (ap some (omega arith)),
    walk_delimiter d c field s e
        ∙ ap (λ (t : Bytes). t ∷ split_walk d none [] s) (sym (append-nil field)),
  )
  | inr e ↦ elim (first_piece d (i + 1) (field ++ c ∷ []) s) [
    | inl (f, g) ↦ inl (
      rw e f,
      walk_other d c field s e ∙ (g ∙ ap (λ (t : Bytes). t ∷ []) (append_assoc field (c ∷ []) s)),
    )
    | inr (a, c', b, f, g, h) ↦ inr (
      c ∷ a,
      c',
      b,
      ap (λ (t : Bytes). c ∷ t) f,
      rw e (g ∙ ap some (omega arith)),
      walk_other d c field s e
          ∙ (h ∙ ap (λ (t : Bytes). t ∷ split_walk d none [] b) (append_assoc field (c ∷ []) a)),
    )
  ]
]

loop_round :
    (fuel : ℕ) (it next : SplitIterator) (piece : Bytes) (pieces : List Bytes)
    → is_end it ≡ false
    → split_value it ≡ some piece
    → next_split it ≡ next
    → split_loop fuel next ≡ some pieces
    → split_loop (suc fuel) it ≡ some (piece ∷ pieces)
unfolding split_loop
loop_round fuel it next piece pieces e v n r = rw (e, v, n, r) refl

module _ (d : ℕ) where
  -- The iterator that stands at the start of `s`, behind `front`.
  unfoldable pub standing : Bytes → Bytes → SplitIterator
  standing front s = record {
    str = front ++ s;
    delims = d ∷ [];
    cur = find_from (d ∷ []) (length front) s;
    prev = some (length front);
  }

  -- The piece before a delimiter, and the iterator behind it.
  pub piece_value :
      (front a b : Bytes) (c : ℕ)
      → find_from (d ∷ []) (length front) (a ++ c ∷ b) ≡ some (length front + length a)
      → split_value (standing front (a ++ c ∷ b)) ≡ some a
  unfolding split_value stop_of standing
  piece_value front a b c f =
      let width : length (front ++ (a ++ c ∷ b)) ≡ length front + (length a + suc (length b)) =
        omega (arith, length-append front (a ++ c ∷ b), length-append a (c ∷ b)) in
      let inside : ltb (length (front ++ (a ++ c ∷ b))) (length front) ≡ false = ground arith in
      let below : ltb (length (front ++ (a ++ c ∷ b))) (length front + length a) ≡ false =
        ground arith in
      let size : length front + length a - length front ≡ length a = omega arith in
      rw (f, inside, below, size, drop_front (length front) front (a ++ c ∷ b) refl)
        (ap some (take_front (length a) a (c ∷ b) refl))

  pub piece_next :
      (front a b : Bytes) (c : ℕ)
      → find_from (d ∷ []) (length front) (a ++ c ∷ b) ≡ some (length front + length a)
      → next_split (standing front (a ++ c ∷ b)) ≡ standing (front ++ (a ++ c ∷ [])) b
  unfolding next_split standing find_first_of
  piece_next front a b c f =
      let place : length front + length a + 1 ≡ length (front ++ (a ++ c ∷ [])) =
        omega (arith, length-append front (a ++ c ∷ []), length-append a (c ∷ [])) in
      let joined : front ++ (a ++ c ∷ b) ≡ (front ++ (a ++ c ∷ [])) ++ b =
        ap (λ (t : Bytes). front ++ t) (sym (append_assoc a (c ∷ []) b))
        ∙ sym (append_assoc front (a ++ c ∷ []) b) in
      rw
        (
          f,
          place,
          joined,
          drop_front (length (front ++ (a ++ c ∷ []))) (front ++ (a ++ c ∷ [])) b refl,
        )
        refl

  pub standing-end : (front s : Bytes) → is_end (standing front s) ≡ false
  unfolding standing is_end
  standing-end front s = started (find_from (d ∷ []) (length front) s)
    where
      started :
          (cur : Option ℕ)
          → is_end
              (record { str = front ++ s; delims = d ∷ []; cur = cur; prev = some (length front) })
            ≡ false
      started none = refl
      started (some n) = refl

  piece_round :
      (fuel : ℕ) (front a b : Bytes) (c : ℕ) (pieces : List Bytes)
      → find_from (d ∷ []) (length front) (a ++ c ∷ b) ≡ some (length front + length a)
      → split_loop fuel (standing (front ++ (a ++ c ∷ [])) b) ≡ some pieces
      → split_loop (suc fuel) (standing front (a ++ c ∷ b)) ≡ some (a ∷ pieces)
  piece_round fuel front a b c pieces f r =
      loop_round fuel _ _ a pieces (standing-end front (a ++ c ∷ b)) (piece_value front a b c f)
        (piece_next front a b c f) r

  -- The last piece.
  pub last_value :
      (front s : Bytes)
      → find_from (d ∷ []) (length front) s ≡ none
      → split_value (standing front s) ≡ some s
  unfolding split_value stop_of standing
  last_value front s f =
      let inside : ltb (length (front ++ s)) (length front) ≡ false =
        ground (arith, length-append front s) in
      let size : length (front ++ s) - length front ≡ length s =
        omega (arith, length-append front s) in
      rw (f, inside, drop_front (length front) front s refl, size) (ap some (take_whole s))

  loop_standing :
      (fuel : ℕ) (front s : Bytes)
      → length s + 2 ≤ fuel
      → split_loop fuel (standing front s) ≡ some (split_walk (d ∷ []) none [] s)
  unfolding split_loop next_split is_end standing Found
  loop_standing zero front s h = absurd (omega arith)
  loop_standing (suc zero) front s h = absurd (omega arith)
  loop_standing (suc (suc fuel)) front s h = elim (first_piece (d ∷ []) (length front) [] s) [
    | inl (f, g) ↦ rw g (
        loop_round (suc fuel) _ _ s [] (standing-end front s) (last_value front s f) refl
          (rw f refl))
    | inr (a, c, b, whole, f, g) ↦
        let width : length s ≡ length a + suc (length b) = rw whole (length-append a (c ∷ b)) in
        let ih = loop_standing (suc fuel) (front ++ (a ++ c ∷ [])) b (omega arith) in
        let at_c : find_from (d ∷ []) (length front) (a ++ c ∷ b) ≡ some (length front + length a) =
          rw whole at f in
        rw (g, whole) (piece_round (suc fuel) front a b c _ at_c ih)
  ]

-- A loop over a range with one delimiter sees the pieces that `Split` returns, and ends.
pub split_range-split :
    (str : Bytes) (d : ℕ) → split_range str (d ∷ []) ≡ some (split str (d ∷ []) none)
unfolding split_range split split_begin find_first_of standing
split_range-split str d = loop_standing d (length str + 2) [] str (omega arith)
