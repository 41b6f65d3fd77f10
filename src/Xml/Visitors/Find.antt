-- ===== src/Xml/Visitors/Find.antt =====
-- What `FindVisitor` and `PathVisitor` find: the first match in the order of the document.
use s3client.Common.{
  List, [], ◌∷◌, ◌++◌, Bytes, Option, none, some, Bool, true, false, same_text, if◌then◌else◌, ◌≡◌,
  refl, ap, ◌∙◌, arith, Bool-cases, inl, inr,
}
use s3client.Text.Url.{to_lower}
use s3client.Xml.Dom.{Node, Nodes, element, text, other, nil, cons, Dom, IsDom, walk, onward}
use s3client.Xml.Visitors.{is_none, same_path, pop_back, find_visitor, path_visitor}

-- The elements below a path with their own paths, each before those inside it.
unfoldable mutual
  pub located : List Bytes → Node → List (List Bytes × Node)
  located cur (element name attributes ns) =
      (cur ++ to_lower name ∷ [], element name attributes ns)
      ∷ located_all (cur ++ to_lower name ∷ []) ns
  located cur (text t) = []
  located cur other = []

  pub located_all : List Bytes → Nodes → List (List Bytes × Node)
  located_all cur nil = []
  located_all cur (cons n ns) = located cur n ++ located_all cur ns

-- The first element that passes a test.
unfoldable pub first : (List Bytes × Node → Bool) → List (List Bytes × Node) → Option Node
first p [] = none
first p (x ∷ xs) = if p x then some x.1 else first p xs

or_first : (List Bytes × Node → Bool) → Option Node → List (List Bytes × Node) → Option Node
or_first p none xs = first p xs
or_first p (some e) xs = some e

first-append :
    (p : List Bytes × Node → Bool) (xs ys : List (List Bytes × Node))
    → first p (xs ++ ys) ≡ or_first p (first p xs) ys
unfolding first or_first
first-append p [] ys = refl
first-append p (x ∷ xs) ys = ground (arith, first-append p xs ys)

-- The last name of a path.
unfoldable pub last_is : Bytes → List Bytes × Node → Bool
last_is target ([], e) = false
last_is target (n ∷ [], e) = same_text n target
last_is target (n ∷ m ∷ ns, e) = last_is target (m ∷ ns, e)

last_is-append :
    (target : Bytes) (cur : List Bytes) (n : Bytes) (e : Node)
    → last_is target (cur ++ n ∷ [], e) ≡ same_text n target
unfolding last_is
last_is-append target [] n e = refl
last_is-append target (c ∷ []) n e = refl
last_is-append target (c ∷ d ∷ cur) n e = last_is-append target (d ∷ cur) n e

-- The visit goes on where nothing is found.
resumed :
    (f : Option Node → Option Node) (p : List Bytes × Node → Bool) (r : Option Node)
    (xs : List (List Bytes × Node))
    → f none ≡ first p xs
    → onward f (is_none r, r) ≡ or_first p r xs
unfolding is_none or_first
resumed f p none xs h = h
resumed f p (some e) xs h = refl

module _ (dom : Dom) (d : IsDom dom) (target : Bytes) where
  mutual
    unfolding located first find_visitor is_none walk or_first

    find-node :
        (cur : List Bytes) (n : Node)
        → dom.accept (find_visitor target) n none ≡ (
          is_none (first (last_is target) (located cur n)),
          first (last_is target) (located cur n),
        )
    find-node cur (element name attributes ns) =
        d.accept-element (find_visitor target) name attributes ns none
        ∙ rw last_is-append (elim (Bool-cases (same_text (to_lower name) target)) [
          | inl e ↦ rw e refl
          | inr e ↦ rw (e, find-nodes (cur ++ to_lower name ∷ []) ns) refl
        ])
    find-node cur (text t) = d.accept-text (find_visitor target) t none
    find-node cur other = d.accept-other (find_visitor target) none

    find-nodes :
        (cur : List Bytes) (ns : Nodes)
        → walk dom (find_visitor target) ns none ≡ first (last_is target) (located_all cur ns)
    find-nodes cur nil = refl
    find-nodes cur (cons n ns) =
        rw (find-node cur n, first-append)
          (resumed (λ t. walk dom (find_visitor target) ns t) (last_is target)
            (first (last_is target) (located cur n)) (located_all cur ns) (find-nodes cur ns))

  -- The element that a `FindVisitor` finds is the first of the document, in the order of the opening
  -- tags, whose name in lower case is the one that is looked for.
  pub find_visitor-first :
      (doc : Nodes)
      → walk dom (find_visitor target) doc none ≡ first (last_is target) (located_all [] doc)
  find_visitor-first doc = find-nodes [] doc

pub pop_back-append : (cur : List Bytes) (n : Bytes) → pop_back (cur ++ n ∷ []) ≡ cur
unfolding pop_back
pop_back-append [] n = refl
pop_back-append (c ∷ []) n = refl
pop_back-append (c ∷ d ∷ cur) n = ap (λ (t : List Bytes). c ∷ t) (pop_back-append (d ∷ cur) n)

-- Where a `PathVisitor` stands after a part of the document: where it stood, or stopped.
abbrev Stands : List Bytes → Option Node → Bool × (List Bytes × Option Node) → Type 0
Stands cur none r = r ≡ (true, (cur, none))
Stands cur (some e) r = (at : List Bytes) × (r ≡ (false, (at, some e)))

abbrev pub at_path : List Bytes → List Bytes × Node → Bool
at_path path x = same_path x.0 path

abbrev Left : List Bytes → Option Node → List Bytes × Option Node → Type 0
Left cur none s = s ≡ (cur, none)
Left cur (some e) s = (at : List Bytes) × (s ≡ (at, some e))

goes_on :
    (f : List Bytes × Option Node → List Bytes × Option Node) (cur : List Bytes)
    (p : List Bytes × Node → Bool) (r : Option Node) (xs : List (List Bytes × Node))
    (res : Bool × (List Bytes × Option Node))
    → Stands cur r res
    → Left cur (first p xs) (f (cur, none))
    → Left cur (or_first p r xs) (onward f res)
unfolding or_first
goes_on f cur p none xs res h l = rw h l
goes_on f cur p (some e) xs res (at, h) l = (at, rw h refl)

leaves :
    (path cur : List Bytes) (name n : Bytes) (r : Option Node) (s : List Bytes × Option Node)
    → Left (cur ++ n ∷ []) r s
    → Stands cur r ((path_visitor path).exit name s)
unfolding path_visitor is_none
leaves path cur name n none s h = rw (h, pop_back-append) refl
leaves path cur name n (some e) s (at, h) = (at, rw h refl)

module _ (dom : Dom) (d : IsDom dom) (path : List Bytes) where
  mutual
    unfolding located first path_visitor walk

    path-node :
        (cur : List Bytes) (n : Node)
        → Stands cur
            (first (at_path path) (located cur n))
            (dom.accept (path_visitor path) n (cur, none))
    path-node cur (element name attributes ns) =
        rw (d.accept-element (path_visitor path) name attributes ns (cur, none))
          (elim (Bool-cases (same_path (cur ++ to_lower name ∷ []) path)) [
            | inl e ↦ rw e (
                leaves path cur name (to_lower name) (some (element name attributes ns)) _
                  (cur ++ to_lower name ∷ [], refl))
            | inr e ↦ rw e (
                leaves path cur name (to_lower name) _ _
                  (path-nodes (cur ++ to_lower name ∷ []) ns))
          ])
    path-node cur (text t) = d.accept-text (path_visitor path) t (cur, none)
    path-node cur other = d.accept-other (path_visitor path) (cur, none)

    path-nodes :
        (cur : List Bytes) (ns : Nodes)
        → Left cur
            (first (at_path path) (located_all cur ns))
            (walk dom (path_visitor path) ns (cur, none))
    path-nodes cur nil = refl
    path-nodes cur (cons n ns) = rw first-append (
        goes_on (λ t. walk dom (path_visitor path) ns t) cur (at_path path) _ _ _ (path-node cur n)
          (path-nodes cur ns))

  result_of :
      (cur : List Bytes) (r : Option Node) (s : List Bytes × Option Node) → Left cur r s → s.1 ≡ r
  result_of cur none s h = ap (λ (t : List Bytes × Option Node). t.1) h
  result_of cur (some e) s (at, h) = ap (λ (t : List Bytes × Option Node). t.1) h

  -- The element that a `PathVisitor` finds is the first of the document, in the order of the opening
  -- tags, whose path in lower case is the one that is looked for.
  pub path_visitor-first :
      (doc : Nodes)
      → (walk dom (path_visitor path) doc ([], none)).1 ≡ first (at_path path) (located_all [] doc)
  path_visitor-first doc = result_of [] _ _ (path-nodes [] doc)
