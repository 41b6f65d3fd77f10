-- ===== src/Xml/Requests/Fields.antt =====
-- The fields of the requests, by the path of open elements.
use s3client.Common.{
  List, [], ◌∷◌, ◌++◌, Bytes, Option, none, some, true, false, if◌then◌else◌, codes, ◌≡◌, refl,
  append-nil, subst, sym, Bool-cases,
}
use mathlib.Core.Logic.{inl, inr}
use s3client.Sign.{is_empty}
use s3client.Hash.Utility.{◌>>=◌}
use s3client.Xml.Dom.{Node, element, text, nil, cons}
use s3client.Xml.Path.{parse_path, parse_path_from}
use s3client.Xml.Builder.{Builder, Open, add_child, IsBuilder}
use s3client.Xml.Stream.{OStream, all_slashes, field}
use s3client.Xml.Stream.At.{IsName, Stands, subscript-name, assign_text-leaf, bind-steps}
use s3client.Xml.Requests.{optional}

-- An element with one text.
pub leaf : Bytes → Bytes → Node
leaf name t = element name [] (cons (text t) nil)

pub optional_leaf : Bytes → Bytes → Bytes → List Node
optional_leaf given name t = if is_empty given then [] else leaf name t ∷ []

pub extend : Open → List Node → Open
extend (name, children) nodes = (name, children ++ nodes)

pub owner-IsName : IsName (codes "owner")
unfolding all_slashes parse_path parse_path_from
owner-IsName = (refl, refl)

pub displayname-IsName : IsName (codes "displayname")
unfolding all_slashes parse_path parse_path_from
displayname-IsName = (refl, refl)

pub ownerid-IsName : IsName (codes "ownerid")
unfolding all_slashes parse_path parse_path_from
ownerid-IsName = (refl, refl)

pub grantee-IsName : IsName (codes "grantee")
unfolding all_slashes parse_path parse_path_from
grantee-IsName = (refl, refl)

pub emailaddress-IsName : IsName (codes "emailaddress")
unfolding all_slashes parse_path parse_path_from
emailaddress-IsName = (refl, refl)

pub id-IsName : IsName (codes "id")
unfolding all_slashes parse_path parse_path_from
id-IsName = (refl, refl)

pub kind-IsName : IsName (codes "type")
unfolding all_slashes parse_path parse_path_from
kind-IsName = (refl, refl)

pub uri-IsName : IsName (codes "uri")
unfolding all_slashes parse_path parse_path_from
uri-IsName = (refl, refl)

pub grant-IsName : IsName (codes "grant")
unfolding all_slashes parse_path parse_path_from
grant-IsName = (refl, refl)

pub permission-IsName : IsName (codes "permission")
unfolding all_slashes parse_path parse_path_from
permission-IsName = (refl, refl)

pub tag-IsName : IsName (codes "Tag")
unfolding all_slashes parse_path parse_path_from
tag-IsName = (refl, refl)

pub key-IsName : IsName (codes "Key")
unfolding all_slashes parse_path parse_path_from
key-IsName = (refl, refl)

pub value-IsName : IsName (codes "Value")
unfolding all_slashes parse_path parse_path_from
value-IsName = (refl, refl)

module _ (b : Builder) (l : IsBuilder b) where
  pub field-leaf :
      (m : Option (OStream b)) (name t : Bytes) (o : Open) (os : List Open)
      → IsName name
      → Stands b l m o os
      → Stands b l (m >>= field b name t) (add_child (leaf name t) o) os
  unfolding field leaf
  field-leaf m name t o os h at_o =
      subst (λ r. Stands b l r (add_child (leaf name t) o) os) (sym (bind-steps m _ _))
        (assign_text-leaf b l _ t name o os (subscript-name b l m name o os h at_o))

  optional-without :
      (m : Option (OStream b)) (given name t : Bytes)
      → is_empty given ≡ true
      → m >>= optional b given name t ≡ m
  unfolding optional
  optional-without none given name t e = refl
  optional-without (some s) given name t e = rw e refl

  optional-field :
      (m : Option (OStream b)) (given name t : Bytes)
      → is_empty given ≡ false
      → m >>= optional b given name t ≡ m >>= field b name t
  unfolding optional
  optional-field none given name t e = refl
  optional-field (some s) given name t e = rw e refl

  pub optional-leaf :
      (m : Option (OStream b)) (given name t n : Bytes) (children : List Node) (os : List Open)
      → IsName name
      → Stands b l m (n, children) os
      → Stands b l (m >>= optional b given name t) (n, children ++ optional_leaf given name t) os
  unfolding optional_leaf
  optional-leaf m given name t n children os h at_o = elim (Bool-cases (is_empty given)) [
    | inl e ↦ rw (optional-without m given name t e, e, append-nil children) at_o
    | inr e ↦ rw (optional-field m given name t e, e) (field-leaf m name t (n, children) os h at_o)
  ]
