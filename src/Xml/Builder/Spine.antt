-- ===== src/Xml/Builder/Spine.antt =====
-- A builder that keeps only the path of the element inserted last, an element being its depth.
use s3client.Common.{
  ℕ, zero, suc, ◌+◌, ◌-◌, ◌≤◌, ◌<◌, List, [], ◌∷◌, Bytes, none, some, false, ltb, if◌then◌else◌,
  length, ◌≡◌, refl, sym, ap, ◌∙◌, arith, Bool-cases,
}
use mathlib.Core.Logic.{inl, inr}
use s3client.Xml.Dom.{Nodes, text, nil}
use s3client.Xml.Builder.{Builder, Open, finished, add_child, closed, IsBuilder}

-- The innermost `k` elements are finished.
close_by : ℕ → List Open → List Open
close_by zero os = os
close_by (suc k) [] = []
close_by (suc k) (o ∷ []) = []
close_by (suc k) (o ∷ p ∷ os) = close_by k (add_child (finished o) p ∷ os)

path_to : ℕ → List Open → List Open
path_to h d = if ltb (length d) h then [] else close_by (length d - h) d

with_text : Bytes → List Open → List Open
with_text t [] = []
with_text t ((name, children) ∷ os) = (name, text t ∷ []) ∷ os

whole : List Open → Nodes
whole [] = nil
whole (o ∷ os) = closed o os

pub spine_builder : Builder
unfolding path_to close_by with_text whole
spine_builder = record {
  Doc = List Open;
  Element = ℕ;
  start = [];
  new_root = λ name d. (1, (name, []) ∷ []);
  new_child = λ e name d. (e + 1, (name, []) ∷ path_to e d);
  set_text = λ e t d. with_text t (path_to e d);
  parent = λ e d. if ltb e 2 then none else some (e - 1);
  nodes = λ d. whole d;
}

length-close_by : (k : ℕ) (os : List Open) → k ≤ length os → length (close_by k os) ≡ length os - k
unfolding close_by
length-close_by zero os h = omega arith
length-close_by (suc k) [] h = absurd (omega arith)
length-close_by (suc k) (o ∷ []) h = omega arith
length-close_by (suc k) (o ∷ p ∷ os) h =
    omega (arith, length-close_by k (add_child (finished o) p ∷ os))

close_by-suc : (k : ℕ) (os : List Open) → close_by 1 (close_by k os) ≡ close_by (suc k) os
unfolding close_by
close_by-suc zero os = refl
close_by-suc (suc k) [] = refl
close_by-suc (suc k) (o ∷ []) = refl
close_by-suc (suc k) (o ∷ p ∷ os) = close_by-suc k (add_child (finished o) p ∷ os)

whole-close_by : (k : ℕ) (os : List Open) → k < length os → whole (close_by k os) ≡ whole os
unfolding close_by whole
whole-close_by zero os h = refl
whole-close_by (suc k) [] h = absurd (omega arith)
whole-close_by (suc k) (o ∷ []) h = absurd (omega arith)
whole-close_by (suc k) (o ∷ p ∷ os) h =
    whole-close_by k (add_child (finished o) p ∷ os) (omega arith)

-- An element with a path has its depth.
path_to-close_by :
    (h : ℕ) (d : List Open) (o : Open) (os : List Open)
    → path_to h d ≡ o ∷ os
    → (h ≤ length d) × (close_by (length d - h) d ≡ o ∷ os)
unfolding path_to
path_to-close_by h d o os e = elim (Bool-cases (ltb (length d) h)) [
  | inl f ↦ absurd (let g : ◌≡◌ {A = List Open} [] (o ∷ os) = rw f at e in cc g)
  | inr f ↦ (ground arith, rw f at e)
]

path_to-length :
    (h : ℕ) (d : List Open) (o : Open) (os : List Open) → path_to h d ≡ o ∷ os → h ≡ suc (length os)
path_to-length h d o os e =
    let (fits, f) = path_to-close_by h d o os e in
    let width : length (close_by (length d - h) d) ≡ suc (length os) = rw f refl in
    omega (arith, length-close_by (length d - h) d)

-- A document that is a path of depth `h` has it as the path of that element.
path_to_self : (d : List Open) → path_to (length d) d ≡ d
unfolding path_to close_by
path_to_self d =
    let enough : ltb (length d) (length d) ≡ false = ground arith in
    let none_left : length d - length d ≡ 0 = omega arith in rw (path_to, enough, none_left) refl

child_path :
    (h : ℕ) (d : List Open) (o n : Open) (os : List Open)
    → path_to h d ≡ o ∷ os
    → path_to (h + 1) (n ∷ path_to h d) ≡ n ∷ o ∷ os
child_path h d o n os e =
    let depth : h + 1 ≡ length (n ∷ o ∷ os) = omega (arith, path_to-length h d o os e) in
    rw (e, depth) (path_to_self (n ∷ o ∷ os))

text_path :
    (h : ℕ) (t : Bytes) (d : List Open) (name : Bytes) (os : List Open)
    → path_to h d ≡ (name, []) ∷ os
    → path_to h (with_text t (path_to h d)) ≡ (name, text t ∷ []) ∷ os
unfolding with_text
text_path h t d name os e =
    let depth : h ≡ length ((name, text t ∷ []) ∷ os) =
      omega (arith, path_to-length h d (name, []) os e) in
    rw (e, depth) (path_to_self ((name, text t ∷ []) ∷ os))

parent_path :
    (h : ℕ) (d : List Open) (o p : Open) (os : List Open)
    → path_to h d ≡ o ∷ p ∷ os
    → path_to (h - 1) d ≡ add_child (finished o) p ∷ os
unfolding close_by
parent_path h d o p os e =
    let (fits, f) = path_to-close_by h d o (p ∷ os) e in
    let depth : h ≡ suc (length (p ∷ os)) = path_to-length h d o (p ∷ os) e in
    let enough : ltb (length d) (h - 1) ≡ false = ground arith in
    let more : length d - (h - 1) ≡ suc (length d - h) = omega arith in
    unfold path_to in rw (enough, more) (sym (close_by-suc (length d - h) d) ∙ ap (close_by 1) f)

pub spine_builder-IsBuilder : IsBuilder spine_builder
unfolding spine_builder
spine_builder-IsBuilder = record {
  path = path_to;
  path-new_root = λ name. path_to_self ((name, []) ∷ []);
  path-new_child = λ e name d o os h. child_path e d o (name, []) os h;
  path-set_text = text_path;
  path-parent = λ e d o p os h.
      let depth : e ≡ suc (length (p ∷ os)) = path_to-length e d o (p ∷ os) h in
      let deep : ltb e 2 ≡ false = ground arith in (e - 1, rw deep refl, parent_path e d o p os h);
  parent-root = λ e d o h. let depth : e ≡ 1 = path_to-length e d o [] h in rw depth refl;
  nodes-path = λ e d o os h.
      let (fits, f) = path_to-close_by e d o os h in
      let depth : e ≡ suc (length os) = path_to-length e d o os h in
      sym (whole-close_by (length d - e) d (omega arith)) ∙ rw f (unfold whole in refl);
}
