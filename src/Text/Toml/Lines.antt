-- ===== src/Text/Toml/Lines.antt =====
-- The lines of a file of sections, and what each of them is for `ParseTomlFile`.
use s3client.Common.{
  ℕ, [], ◌∷◌, ◌++◌, Bytes, none, some, Bool, true, false, not, ◌&&◌, ◌||◌, ◌==◌, ltb, leb, ◌≡◌,
  refl, sym, ap, ◌∙◌, arith, All, All-append, append-nil, append_assoc, drop-append,
}
use s3client.Sign.{is_empty}
use s3client.Xml.Path.{is_space, skip_spaces}
use s3client.Text.Url.{is_digit, is_upper, is_lower}
use s3client.Text.Headers.{run_of, is_word}
use s3client.Text.Toml.{
  without_blanks, trim_line, lines_from, is_comment, section_name, section_of, value_text, key_here,
  key_value,
}

-- Letters that are no blank and do not start a comment.
unfoldable pub is_visible : ℕ → Bool
is_visible c = ltb 32 c && not (c == 35)

unfoldable pub is_name : ℕ → Bool
is_name c = is_visible c && not (c == 93)

-- A text that is not empty, whose letters pass a test.
unfoldable pub Passes : (ℕ → Bool) → Bytes → Type 0
Passes p s = (is_empty s ≡ false) × All (λ c. p c ≡ true) s

abbrev pub Pair : Type 0
Pair = Bytes × Bytes

pub section_line : Bytes → Bytes
section_line n = 91 ∷ (n ++ 93 ∷ [])

pub pair_line : Bytes → Bytes → Bytes
pair_line k v = k ++ 32 ∷ 61 ∷ 32 ∷ v

pub lines-line :
    (l rest piece : Bytes)
    → All (λ c. (c == 10) ≡ false) l
    → lines_from piece (l ++ 10 ∷ rest) ≡ (piece ++ l) ∷ lines_from [] rest
unfolding lines_from
lines-line [] rest piece h = ap (λ (x : Bytes). x ∷ lines_from [] rest) (sym (append-nil piece))
lines-line (c ∷ l) rest piece (h, hs) =
    rw (lines_from, h)
      (lines-line l rest (piece ++ c ∷ []) hs
        ∙ ap (λ (x : Bytes). x ∷ lines_from [] rest) (append_assoc piece (c ∷ []) l))

pub run_of-before :
    (p : ℕ → Bool) (n r : Bytes) (d : ℕ)
    → All (λ c. p c ≡ true) n
    → p d ≡ false
    → run_of p (n ++ d ∷ r) ≡ n
unfolding run_of
run_of-before p [] r d h k = rw k refl
run_of-before p (c ∷ n) r d (h, hs) k =
    rw h (ap (λ (x : Bytes). c ∷ x) (run_of-before p n r d hs k))

pub run_of-All : (p : ℕ → Bool) (n : Bytes) → All (λ c. p c ≡ true) n → run_of p n ≡ n
unfolding run_of
run_of-All p [] h = refl
run_of-All p (c ∷ n) (h, hs) = rw h (ap (λ (x : Bytes). c ∷ x) (run_of-All p n hs))

pub All-implied :
    (p q : ℕ → Bool) (b : Bool) (s : Bytes)
    → ((c : ℕ) → p c ≡ true → q c ≡ b)
    → All (λ c. p c ≡ true) s
    → All (λ c. q c ≡ b) s
All-implied p q b [] h k = tt
All-implied p q b (c ∷ s) h (k, ks) = (h c k, All-implied p q b s h ks)

no_hash : (c : ℕ) → is_visible c ≡ true → not (c == 35) ≡ true
unfolding is_visible
no_hash c h = ground arith

name_inside : (c : ℕ) → is_name c ≡ true → not (c == 93) ≡ true
unfolding is_name
name_inside c h = ground arith

name_shown : (c : ℕ) → is_name c ≡ true → (c == 32 || leb 9 c && leb c 13) ≡ false
unfolding is_name is_visible
name_shown c h = ground arith

visible_shown : (c : ℕ) → is_visible c ≡ true → (c == 32 || leb 9 c && leb c 13) ≡ false
unfolding is_visible
visible_shown c h = ground arith

no_return : (c : ℕ) → is_visible c ≡ true → not (c == 13) ≡ true
unfolding is_visible
no_return c h = ground arith

-- A letter of a name of a key.
pub word_shown : (c : ℕ) → is_word c ≡ true → (c == 32 || leb 9 c && leb c 13) ≡ false
unfolding is_word is_digit is_upper is_lower
word_shown c h = ground arith

word_hash : (c : ℕ) → is_word c ≡ true → (c == 35) ≡ false
unfolding is_word is_digit is_upper is_lower
word_hash c h = ground arith

word_bracket : (c : ℕ) → is_word c ≡ true → (c == 91) ≡ false
unfolding is_word is_digit is_upper is_lower
word_bracket c h = ground arith

without_blanks-All : (v : Bytes) → All (λ c. is_visible c ≡ true) v → without_blanks v ≡ v
unfolding without_blanks is_visible
without_blanks-All [] h = refl
without_blanks-All (c ∷ v) (h, hs) =
    let shown : (c == 32 || (c == 13 || (c == 10 || c == 9))) ≡ false = ground arith in
    rw (shown, without_blanks-All v hs) refl

pub trim_line-All : (v : Bytes) → All (λ c. is_visible c ≡ true) v → trim_line v ≡ v
unfolding trim_line without_blanks run_of
trim_line-All [] h = refl
trim_line-All (c ∷ v) h =
    rw
      (
        trim_line,
        run_of-All (λ d. not (d == 35)) (c ∷ v)
            (All-implied is_visible (λ d. not (d == 35)) true (c ∷ v) no_hash h),
        without_blanks-All (c ∷ v) h,
      )
      refl

pub section_of-line : (n : Bytes) → Passes is_name n → section_of (section_line n) ≡ some n
unfolding section_of section_line section_name Passes skip_spaces is_space is_empty
section_of-line [] (h, hs) = absurd (cc h)
section_of-line (d ∷ n) (h, (hd, hs)) =
    let whole : run_of (λ c. not (c == 93)) ((d ∷ n) ++ 93 ∷ []) ≡ d ∷ n =
      run_of-before (λ c. not (c == 93)) (d ∷ n) [] 93
        (All-implied is_name (λ c. not (c == 93)) true (d ∷ n) name_inside (hd, hs)) refl in
    let shown : (d == 32 || leb 9 d && leb d 13) ≡ false = name_shown d hd in
    rw (whole, drop-append (d ∷ n) (93 ∷ []), shown) refl

pub section_line-comment : (n : Bytes) → is_comment (section_line n) ≡ false
unfolding is_comment section_line skip_spaces is_space is_empty
section_line-comment n = refl

skip_spaces-All : (v : Bytes) → All (λ c. is_visible c ≡ true) v → skip_spaces v ≡ v
unfolding skip_spaces is_space
skip_spaces-All [] h = refl
skip_spaces-All (c ∷ v) (h, hs) =
    let shown : (c == 32 || leb 9 c && leb c 13) ≡ false = visible_shown c h in
    rw (skip_spaces, shown) refl

value_text-All : (v : Bytes) → All (λ c. is_visible c ≡ true) v → value_text (32 ∷ v) ≡ v
unfolding value_text skip_spaces is_space
value_text-All v h =
    rw (value_text, skip_spaces-All v h)
      (run_of-All (λ c. not (c == 13)) v
        (All-implied is_visible (λ c. not (c == 13)) true v no_return h))

no_word : is_word 32 ≡ false
unfolding is_word is_digit is_upper is_lower
no_word = refl

skip_equals : (v : Bytes) → skip_spaces (32 ∷ 61 ∷ 32 ∷ v) ≡ 61 ∷ 32 ∷ v
unfolding skip_spaces is_space
skip_equals v = refl

key_here-line :
    (k v : Bytes)
    → Passes is_word k
    → All (λ c. is_visible c ≡ true) v
    → key_here (pair_line k v) ≡ some (k, v)
unfolding key_here pair_line Passes
key_here-line k v (h, hs) hv =
    let whole : run_of is_word (k ++ 32 ∷ 61 ∷ 32 ∷ v) ≡ k =
      run_of-before is_word k (61 ∷ 32 ∷ v) 32 hs no_word in
    let value : value_text (32 ∷ v) ≡ v = value_text-All v hv in
    rw (key_here, whole, drop-append k (32 ∷ 61 ∷ 32 ∷ v), skip_equals v, whole, h, value) refl

pub key_value-line :
    (k v : Bytes)
    → Passes is_word k
    → All (λ c. is_visible c ≡ true) v
    → key_value (pair_line k v) ≡ some (k, v)
unfolding key_value pair_line Passes is_empty
key_value-line [] v (h, hs) hv = absurd (cc h)
key_value-line (c ∷ k) v h hv =
    let here : key_here (c ∷ (k ++ 32 ∷ 61 ∷ 32 ∷ v)) ≡ some (c ∷ k, v) =
      key_here-line (c ∷ k) v h hv in
    rw (key_value, here) refl

pub pair_line-plain :
    (k v : Bytes)
    → Passes is_word k
    → (is_comment (pair_line k v) ≡ false) × (section_of (pair_line k v) ≡ none)
unfolding is_comment section_of pair_line Passes is_empty skip_spaces is_space
pair_line-plain [] v (h, hs) = absurd (cc h)
pair_line-plain (c ∷ k) v (h, (hc, hs)) =
    let shown : (c == 32 || leb 9 c && leb c 13) ≡ false = word_shown c hc in
    let other : (c == 35) ≡ false = word_hash c hc in
    let open_ : (c == 91) ≡ false = word_bracket c hc in
    (rw (is_comment, shown, other) refl, rw (section_of, shown, open_) refl)

word_line : (c : ℕ) → is_word c ≡ true → (c == 10) ≡ false
unfolding is_word is_digit is_upper is_lower
word_line c h = ground arith

pub visible_line : (c : ℕ) → is_visible c ≡ true → (c == 10) ≡ false
unfolding is_visible
visible_line c h = ground arith

name_line : (c : ℕ) → is_name c ≡ true → (c == 10) ≡ false
unfolding is_name is_visible
name_line c h = ground arith

pub lines-pair :
    (k v rest : Bytes)
    → Passes is_word k
    → Passes is_visible v
    → lines_from [] (pair_line k v ++ 10 ∷ rest) ≡ pair_line k v ∷ lines_from [] rest
unfolding pair_line Passes
lines-pair k v rest (_, hk) (_, hv) = lines-line (k ++ 32 ∷ 61 ∷ 32 ∷ v) rest [] (
    All-append _ k (32 ∷ 61 ∷ 32 ∷ v) (All-implied is_word (λ c. c == 10) false k word_line hk)
      (refl, (refl, (refl, All-implied is_visible (λ c. c == 10) false v visible_line hv))))

pub lines-section :
    (n rest : Bytes)
    → Passes is_name n
    → lines_from [] (section_line n ++ 10 ∷ rest) ≡ section_line n ∷ lines_from [] rest
unfolding section_line Passes
lines-section n rest (_, hn) = lines-line (91 ∷ (n ++ 93 ∷ [])) rest [] (
  refl,
  All-append _ n (93 ∷ []) (All-implied is_name (λ c. c == 10) false n name_line hn) (refl, tt),
)
