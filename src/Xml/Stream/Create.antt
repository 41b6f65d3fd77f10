-- ===== src/Xml/Stream/Create.antt =====
-- `CreatePath` and `CreatePaths` of lib/src/xml_path.cpp below an element. In a document they make an
-- element that they never insert, and are not modelled.
use s3client.Common.{List, [], ◌∷◌, Bytes, if◌then◌else◌, ◌≡◌, Bool-cases}
use mathlib.Core.Logic.{inl, inr}
use s3client.Sign.{is_empty}
use s3client.Xml.Dom.{Node, element, text, nil, cons}
use s3client.Xml.Path.{parse_path}
use s3client.Xml.Builder.{Builder, Open, add_child, closed, IsBuilder}
use s3client.Xml.Stream.{insert_below}

module _ (b : Builder) where
  -- The loop over the names, and the text of the last.
  unfoldable pub create_names : b.Element → List Bytes → Bytes → b.Doc → b.Element × b.Doc
  create_names e path t d =
      let (n, d') = insert_below b path (e, d) in (n, if is_empty t then d' else b.set_text n t d')

  unfoldable pub create_path : b.Element → Bytes → Bytes → b.Doc → b.Element × b.Doc
  create_path n path t d = create_names n (parse_path path) t d

  unfoldable pub create_each : b.Element → List (Bytes × Bytes) → b.Doc → b.Doc
  create_each e [] d = d
  create_each e ((path, t) ∷ paths) d = create_each e paths (create_path e path t d).1

  unfoldable pub create_paths : b.Element → Bytes → List (Bytes × Bytes) → b.Doc → b.Element × b.Doc
  create_paths n path paths d = let (e, d') = create_path n path [] d in (e, create_each e paths d')

-- Elements each inside the one before, the last with a text unless it is empty.
unfoldable pub chain : Bytes → List Bytes → Bytes → Node
chain n [] t = element n [] (if is_empty t then nil else cons (text t) nil)
chain n (m ∷ names) t = element n [] (cons (chain m names t) nil)

module _ (b : Builder) (l : IsBuilder b) where
  create_last :
      (n t : Bytes) (e : b.Element) (d : b.Doc) (o : Open) (os : List Open)
      → l.path e d ≡ o ∷ os
      → b.nodes (create_names b e (n ∷ []) t d).1 ≡ closed (add_child (chain n [] t) o) os
  unfolding create_names insert_below chain
  create_last n t e d o os h =
      let r = b.new_child e n d in
      let below : l.path r.0 r.1 ≡ (n, []) ∷ o ∷ os = l.path-new_child e n d o os h in
      elim (Bool-cases (is_empty t)) [
        | inl f ↦ rw f (l.nodes-path r.0 r.1 (n, []) (o ∷ os) below)
        | inr f ↦ rw f (
            l.nodes-path r.0 (b.set_text r.0 t r.1) (n, text t ∷ []) (o ∷ os)
              (l.path-set_text r.0 t r.1 n (o ∷ os) below))
      ]

  create_names-chain :
      (names : List Bytes) (n t : Bytes) (e : b.Element) (d : b.Doc) (o : Open) (os : List Open)
      → l.path e d ≡ o ∷ os
      → b.nodes (create_names b e (n ∷ names) t d).1 ≡ closed (add_child (chain n names t) o) os
  unfolding create_names insert_below chain
  create_names-chain [] n t e d o os h = create_last n t e d o os h
  create_names-chain (m ∷ names) n t e d o os h =
      let r = b.new_child e n d in
      create_names-chain names m t r.0 r.1 (n, []) (o ∷ os) (l.path-new_child e n d o os h)

  -- `CreatePath` below an element adds one child to it: the names of its path, each inside the one before,
  -- with the text in the last. The path has at least one name.
  create_path-chain :
      (e : b.Element) (path n t : Bytes) (names : List Bytes) (d : b.Doc) (o : Open)
      (os : List Open)
      → parse_path path ≡ n ∷ names
      → l.path e d ≡ o ∷ os
      → b.nodes (create_path b e path t d).1 ≡ closed (add_child (chain n names t) o) os
  unfolding create_path
  create_path-chain e path n t names d o os p h = rw p (create_names-chain names n t e d o os h)
