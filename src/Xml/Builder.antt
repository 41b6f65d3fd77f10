-- ===== src/Xml/Builder.antt =====
-- What the code builds documents of tinyxml2 with, as an interface: a document, and pointers to its
-- elements. `IsBuilder` states what is documented of it, for an element that has been inserted last
-- below a parent of which the same holds: its path is the open elements from it up to the root.
use s3client.Common.{List, [], ◌∷◌, ◌++◌, Bytes, Option, none, some, ◌≡◌}
use s3client.Xml.Dom.{Node, Nodes, element, text, nil, cons}
pub mod Spine

pub record Builder : Type 1 where
  pub Doc : Type 0
  pub Element : Type 0
  pub start : Doc
  -- `NewElement` and `InsertFirstChild` of the document.
  pub new_root : Bytes → Doc → Element × Doc
  -- `InsertNewChildElement`.
  pub new_child : Element → Bytes → Doc → Element × Doc
  pub set_text : Element → Bytes → Doc → Doc
  -- `Parent()->ToElement()`: a null pointer for the root, whose parent is the document.
  pub parent : Element → Doc → Option Element
  pub nodes : Doc → Nodes

-- An element to which children are added: its name, and those it has.
abbrev pub Open : Type 0
Open = Bytes × List Node

abbrev pub nodes_of : List Node → Nodes
nodes_of [] = nil
nodes_of (n ∷ ns) = cons n (nodes_of ns)

abbrev pub finished : Open → Node
finished (name, children) = element name [] (nodes_of children)

abbrev pub add_child : Node → Open → Open
add_child child (name, children) = (name, children ++ child ∷ [])

-- The document of a path.
abbrev pub closed : Open → List Open → Nodes
closed o [] = cons (finished o) nil
closed o (p ∷ path) = closed (add_child (finished o) p) path

pub record IsBuilder (b : Builder) : Type 1 where
  pub path : b.Element → b.Doc → List Open
  pub path-new_root :
      (name : Bytes)
      → path (b.new_root name b.start).0 (b.new_root name b.start).1 ≡ (name, []) ∷ []
  pub path-new_child :
      (e : b.Element) (name : Bytes) (d : b.Doc) (o : Open) (os : List Open)
      → path e d ≡ o ∷ os
      → path (b.new_child e name d).0 (b.new_child e name d).1 ≡ (name, []) ∷ o ∷ os
  pub path-set_text :
      (e : b.Element) (t : Bytes) (d : b.Doc) (name : Bytes) (os : List Open)
      → path e d ≡ (name, []) ∷ os
      → path e (b.set_text e t d) ≡ (name, text t ∷ []) ∷ os
  pub path-parent :
      (e : b.Element) (d : b.Doc) (o p : Open) (os : List Open)
      → path e d ≡ o ∷ p ∷ os
      → (f : b.Element) × (b.parent e d ≡ some f) × (path f d ≡ add_child (finished o) p ∷ os)
  pub parent-root : (e : b.Element) (d : b.Doc) (o : Open) → path e d ≡ o ∷ [] → b.parent e d ≡ none
  pub nodes-path :
      (e : b.Element) (d : b.Doc) (o : Open) (os : List Open)
      → path e d ≡ o ∷ os
      → b.nodes d ≡ closed o os
