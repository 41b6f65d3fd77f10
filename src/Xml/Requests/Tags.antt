-- ===== src/Xml/Requests/Tags.antt =====
-- The document of the tagging requests: its tags are side by side.
use s3client.Common.{
  List, [], ◌∷◌, ◌++◌, Bytes, Option, none, some, true, codes, ◌≡◌, refl, append_assoc, append-nil,
}
use s3client.Common.Dict.{Dict}
use s3client.Hash.Utility.{◌>>=◌}
use s3client.Xml.Dom.{Node, Nodes, element, nil, cons, Dom}
use s3client.Xml.Path.{parse_path, parse_path_from}
use s3client.Xml.Builder.{Builder, Open, nodes_of, IsBuilder}
use s3client.Xml.Stream.{OStream, all_slashes}
use s3client.Xml.Stream.At.{AreNames, Stands, subscript-start, subscript-name, subscript-slash}
use s3client.Xml.ToText.{xml_to_text}
use s3client.Xml.Requests.{add_tags, tags_stream, xml_text, tagging_xml}
use s3client.Xml.Requests.Fields.{leaf, field-leaf, tag-IsName, key-IsName, value-IsName}

pub tag_nodes : Dict Bytes → List Node
tag_nodes [] = []
tag_nodes ((k, v) ∷ tags) =
    element (codes "Tag") [] (nodes_of (leaf (codes "Key") k ∷ leaf (codes "Value") v ∷ []))
    ∷ tag_nodes tags

pub tagging_nodes : Dict Bytes → Nodes
tagging_nodes tags =
    cons
      (element (codes "Tagging") []
        (cons (element (codes "TagSet") [] (nodes_of (tag_nodes tags))) nil))
      nil

tagging_path : AreNames (codes "Tagging/TagSet") (codes "Tagging") (codes "TagSet")
unfolding all_slashes parse_path parse_path_from
tagging_path = (refl, refl)

module _ (b : Builder) (l : IsBuilder b) where
  add_tags-tag_nodes :
      (tags : Dict Bytes) (m : Option (OStream b)) (n : Bytes) (children : List Node)
      (os : List Open)
      → Stands b l m (n, children) os
      → Stands b l (m >>= add_tags b tags) (n, children ++ tag_nodes tags) os
  unfolding add_tags tag_nodes
  add_tags-tag_nodes [] none n children os (s, e, hm, cur, path, down) = absurd (cc hm)
  add_tags-tag_nodes [] (some s) n children os at_s = rw (append-nil children) at_s
  add_tags-tag_nodes ((k, v) ∷ tags) m n children os (s, e, hm, cur, path, down) =
      let f0 =
        subscript-name b l (some s) _ (n, children) os tag-IsName (s, e, refl, cur, path, down) in
      let f1 = field-leaf b l _ _ k _ _ key-IsName f0 in
      let f2 = field-leaf b l _ _ v _ _ value-IsName f1 in
      let f3 = subscript-slash b l _ _ _ _ f2 in
      rw hm (rw append_assoc at (add_tags-tag_nodes tags _ n _ os f3))

  -- The tagging requests print a document that holds every tag, in the order given, as an element of its
  -- own with its key and its value.
  pub tagging_xml-tagging_nodes :
      (dom : Dom) (tags : Dict Bytes)
      → tagging_xml b dom tags ≡ xml_to_text dom (tagging_nodes tags) true 0 0 []
  unfolding tagging_nodes tagging_xml tags_stream xml_text
  tagging_xml-tagging_nodes dom tags =
      let (s, e, hm, cur, here, down) =
        add_tags-tag_nodes tags _ _ [] _ (subscript-start b l _ _ _ tagging_path) in
      rw (hm, l.nodes-path e s.doc _ _ here) refl
