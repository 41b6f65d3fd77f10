-- ===== src/Xml/Dom.antt =====
-- The part of tinyxml2 that the code calls: a parser, and the traversal of a tree by a visitor. Both
-- are operations of an interface, with the chains of `FirstChildElement` and `NextSiblingElement` as
-- lists, and `IsDom` states the documented order of the visits. The
-- traversals of the code are written against the interface; `tree_accept` shows that it can be met.
use s3client.Common.{
  List, [], ◌∷◌, Bytes, Option, none, some, Bool, true, false, ◌≡◌, refl, sym, ap, same_text,
  if◌then◌else◌,
}

-- A tree as the code reads it: the name, the attributes and the children of an element, and texts.
-- Comments, declarations and unknown nodes are `other`.
mutual
  pub data Node : Type 0 where
    element : Bytes → List (Bytes × Bytes) → Nodes → Node
    text : Bytes → Node
    other : Node

  pub data Nodes : Type 0 where
    nil : Nodes
    cons : Node → Nodes → Nodes

-- The methods of an `XMLVisitor` that do more than return true; each says whether to go on.
pub record Visitor (S : Type 0) : Type 0 where
  pub enter : Node → Bytes → List (Bytes × Bytes) → S → Bool × S
  pub exit : Bytes → S → Bool × S
  pub visit : Bytes → S → Bool × S

pub record Dom : Type 1 where
  pub parse : Bytes → Option Nodes
  pub accept : {S : Type 0} → Visitor S → Node → S → Bool × S
  pub get_text : Node → Option Bytes
  pub name_of : Node → Bytes
  pub children_named : Node → Bytes → List Node
  pub children : Node → List Node

-- What follows a visit, if it says to go on.
abbrev pub onward : {S : Type 0} → (S → S) → Bool × S → S
onward f (true, s) = f s
onward f (false, s) = s

-- The children of a node, or of the document, up to the first whose visit says to stop.
unfoldable pub walk : (dom : Dom) → {S : Type 0} → Visitor S → Nodes → S → S
walk dom v nil s = s
walk dom v (cons n ns) s = onward (λ t. walk dom v ns t) (dom.accept v n s)

pub record IsDom (dom : Dom) : Type 1 where
  pub accept-text :
      {S : Type 0} (v : Visitor S) (t : Bytes) (s : S) → dom.accept v (text t) s ≡ v.visit t s
  pub accept-other : {S : Type 0} (v : Visitor S) (s : S) → dom.accept v other s ≡ (true, s)
  pub accept-element :
      {S : Type 0} (v : Visitor S) (name : Bytes) (attributes : List (Bytes × Bytes)) (ns : Nodes)
      (s : S)
      → dom.accept v (element name attributes ns) s
        ≡ v.exit name
            (onward (walk dom v ns) (v.enter (element name attributes ns) name attributes s))

-- A traversal by recursion on the tree.
unfoldable mutual
  pub tree_accept : {S : Type 0} → Visitor S → Node → S → Bool × S
  tree_accept v (element name attributes ns) s =
      v.exit name
        (onward (λ t. tree_walk v ns t) (v.enter (element name attributes ns) name attributes s))
  tree_accept v (text t) s = v.visit t s
  tree_accept v other s = (true, s)

  pub tree_walk : {S : Type 0} → Visitor S → Nodes → S → S
  tree_walk v nil s = s
  tree_walk v (cons n ns) s = onward (λ t. tree_walk v ns t) (tree_accept v n s)

-- The library, with any parser.
text_of : Nodes → Option Bytes
text_of (cons (text t) ns) = some t
text_of (cons other ns) = text_of ns
text_of ns = none

tag_of : Node → Bytes
tag_of (element name attributes ns) = name
tag_of n = []

elements_of : (Bytes → Bool) → Nodes → List Node
elements_of p nil = []
elements_of p (cons (element name attributes ms) ns) =
    let rest = elements_of p ns in if p name then element name attributes ms ∷ rest else rest
elements_of p (cons n ns) = elements_of p ns

inside : Node → Nodes
inside (element name attributes ns) = ns
inside n = nil

unfoldable pub tree_dom : (Bytes → Option Nodes) → Dom
unfolding text_of tag_of elements_of inside
tree_dom parse = record {
  parse = parse;
  accept = λ v n s. tree_accept v n s;
  get_text = λ n. text_of (inside n);
  name_of = λ n. tag_of n;
  children_named = λ n name. elements_of (λ m. same_text m name) (inside n);
  children = λ n. elements_of (λ m. true) (inside n);
}

onward-ext :
    {S : Type 0} (f g : S → S) (r : Bool × S) → ((s : S) → f s ≡ g s) → onward f r ≡ onward g r
onward-ext f g (true, s) h = h s
onward-ext f g (false, s) h = refl

walk-tree_dom :
    {S : Type 0} (parse : Bytes → Option Nodes) (v : Visitor S) (ns : Nodes) (s : S)
    → walk (tree_dom parse) v ns s ≡ tree_walk v ns s
unfolding walk tree_accept tree_dom
walk-tree_dom parse v nil s = refl
walk-tree_dom parse v (cons n ns) s =
    onward-ext _ _ (tree_accept v n s) (λ t. walk-tree_dom parse v ns t)

pub tree_dom-IsDom : (parse : Bytes → Option Nodes) → IsDom (tree_dom parse)
unfolding tree_accept tree_dom
tree_dom-IsDom parse = record {
  accept-text = λ v t s. refl;
  accept-other = λ v s. refl;
  accept-element = λ v name attributes ns s. ap (v.exit name) (
      onward-ext _ _ (v.enter (element name attributes ns) name attributes s)
        (λ t. sym (walk-tree_dom parse v ns t)));
}
