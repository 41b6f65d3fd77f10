-- ===== src/Xml/Stream/At.antt =====
-- Where the steps of an `XMLOStream` lead, from the path of open elements it stands at.
use s3client.Common.{List, [], ◌∷◌, Bytes, Option, none, some, false, codes, ◌≡◌, refl}
use s3client.Hash.Utility.{◌>>=◌}
use s3client.Xml.Dom.{element, text, nil, cons}
use s3client.Xml.Path.{parse_path}
use s3client.Xml.Builder.{Builder, Open, finished, add_child, IsBuilder}
use s3client.Xml.Stream.{
  OStream, all_slashes, new_stream, climb, up, insert_text, insert_below, inserted, insert_elements,
  insert, subscript, assign_text, ◌▸◌,
}

-- A name that is one piece of a path.
abbrev pub IsName : Bytes → Type 0
IsName name = (all_slashes name ≡ false) × (parse_path name ≡ name ∷ [])

abbrev pub AreNames : Bytes → Bytes → Bytes → Type 0
AreNames joined first second =
    (all_slashes joined ≡ false) × (parse_path joined ≡ first ∷ second ∷ [])

module _ (b : Builder) (l : IsBuilder b) where
  -- The stream of a result has the path, its innermost element first.
  abbrev pub Stands : Option (OStream b) → Open → List Open → Type 0
  Stands m o os =
      (s : OStream b) × (e : b.Element) × (m ≡ some s)
      × (s.cur ≡ some e)
      × (l.path e s.doc ≡ o ∷ os)
      × (s.down ≡ false)

  pub subscript-name :
      (m : Option (OStream b)) (name : Bytes) (o : Open) (os : List Open)
      → IsName name
      → Stands m o os
      → Stands (m >>= subscript b name) (name, []) (o ∷ os)
  unfolding subscript insert insert_elements insert_below inserted
  subscript-name m name o os (plain, one) (s, e, hm, cur, path, down) =
      let c = b.new_child e name s.doc in
      (
        record { doc = c.1; cur = some c.0; down = false },
        c.0,
        rw (hm, plain, one, cur) refl,
        refl,
        l.path-new_child e name s.doc o os path,
        refl,
      )

  pub subscript-start :
      (joined first second : Bytes)
      → AreNames joined first second
      → Stands (some (new_stream b) >>= subscript b joined) (second, []) ((first, []) ∷ [])
  unfolding new_stream subscript insert insert_elements insert_below inserted
  subscript-start joined first second (plain, two) =
      let r = b.new_root first b.start in
      let c = b.new_child r.0 second r.1 in
      (
        record { doc = c.1; cur = some c.0; down = false },
        c.0,
        rw (plain, two) refl,
        refl,
        l.path-new_child r.0 second r.1 (first, []) [] (l.path-new_root first),
        refl,
      )

  pub subscript-slash :
      (m : Option (OStream b)) (o p : Open) (os : List Open)
      → Stands m o (p ∷ os)
      → Stands (m >>= subscript b (codes "/")) (add_child (finished o) p) os
  unfolding subscript all_slashes up climb
  subscript-slash m o p os (s, e, hm, cur, path, down) =
      let (f, hf, path') = l.path-parent e s.doc o p os path in
      (record s { cur = some f }, f, rw (hm, cur, hf) refl, refl, path', down)

  pub assign_text-leaf :
      (m : Option (OStream b)) (t name : Bytes) (p : Open) (os : List Open)
      → Stands m (name, []) (p ∷ os)
      → Stands (m >>= assign_text b t) (add_child (element name [] (cons (text t) nil)) p) os
  unfolding assign_text insert_text up climb
  assign_text-leaf m t name p os (s, e, hm, cur, path, down) =
      let d = b.set_text e t s.doc in
      let (f, hf, path') =
        l.path-parent e d (name, text t ∷ []) p os (l.path-set_text e t s.doc name (p ∷ os) path) in
      (record { doc = d; cur = some f; down = s.down }, f, rw (hm, cur, hf) refl, refl, path', down)

  pub from :
      (m : Option (OStream b)) (o : Open) (os : List Open)
      → Stands m o os
      → (f : OStream b → Option (OStream b)) (o' : Open) (os' : List Open)
      → ((s : OStream b) → Stands (some s) o os → Stands (f s) o' os')
      → Stands (m >>= f) o' os'
  from m o os (s, e, hm, cur, path, down) f o' os' g = rw hm (g s (s, e, refl, cur, path, down))

pub bind-steps : {S : Type 0} (m : Option S) (f g : S → Option S) → m >>= (f ▸ g) ≡ m >>= f >>= g
bind-steps none f g = refl
bind-steps (some s) f g = refl
