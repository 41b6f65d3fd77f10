-- ===== src/Xml/Requests/Nested.antt =====
-- The document of `GenerateAclXML`: after a grant with a grantee the stream stands inside the grant,
-- where the next one is inserted.
use s3client.Common.{
  List, [], ◌∷◌, ◌++◌, Bytes, Option, none, some, true, false, not, ◌||◌, if◌then◌else◌, codes, ◌≡◌,
  refl, ◌∙◌, append_assoc, append-nil, All, Bool-cases,
}
use mathlib.Core.Logic.{inl, inr}
use s3client.Sign.{is_empty}
use s3client.Hash.Utility.{◌>>=◌}
use s3client.Xml.Dom.{Node, Nodes, element, nil, cons}
use s3client.Xml.Path.{parse_path, parse_path_from}
use s3client.Xml.Builder.{Builder, Open, nodes_of, closed, IsBuilder}
use s3client.Xml.Stream.{OStream, all_slashes}
use s3client.Xml.Stream.At.{AreNames, Stands, subscript-name, subscript-slash, from, bind-steps}
use s3client.Xml.Responses.{AccessControlPolicy, Grant, Grantee}
use s3client.Xml.Requests.{is_no_grantee, add_owner, add_grantee, add_grant, add_grants}
use s3client.Xml.Requests.Fields.{
  leaf, optional_leaf, field-leaf, optional-leaf, owner-IsName, displayname-IsName, ownerid-IsName,
  grantee-IsName, emailaddress-IsName, id-IsName, kind-IsName, uri-IsName, grant-IsName,
  permission-IsName,
}

pub owner_fields : AccessControlPolicy → List Node
owner_fields acl =
    optional_leaf acl.owner_display_name (codes "displayname") acl.owner_display_name
    ++ optional_leaf acl.owner_id (codes "ownerid") acl.owner_display_name

unfoldable pub owner_nodes : AccessControlPolicy → List Node
owner_nodes acl =
    if not (is_empty acl.owner_display_name) || not (is_empty acl.owner_id)
    then element (codes "owner") [] (nodes_of (owner_fields acl)) ∷ []
    else []

pub grantee_fields : Grantee → List Node
grantee_fields i =
    (((optional_leaf i.display_name (codes "displayname") i.display_name
          ++ optional_leaf i.email_address (codes "emailaddress") i.email_address)
        ++ optional_leaf i.id (codes "id") i.id)
      ++ optional_leaf i.xsi_type (codes "type") i.xsi_type)
    ++ optional_leaf i.uri (codes "uri") i.uri

-- What one grant adds, with what the grants behind it add.
pub nested_in : Grant → List Node → List Node
nested_in g rest =
    let granted = leaf (codes "permission") g.permission in
    let grantee = element (codes "grantee") [] (nodes_of (grantee_fields g.grantee)) in
    if is_no_grantee g.grantee
    then element (codes "grant") [] nil ∷ granted ∷ rest
    else element (codes "grant") [] (nodes_of (grantee ∷ granted ∷ rest)) ∷ []

pub nested : List Grant → List Node
nested [] = []
nested (g ∷ grants) = nested_in g (nested grants)

unfoldable pub acl_nodes : AccessControlPolicy → Nodes
acl_nodes acl =
    let list =
      element (codes "accesscontrollist") [] (nodes_of (owner_nodes acl ++ nested acl.grants)) in
    cons (element (codes "accesscontrolpolicy") [] (cons list nil)) nil

pub acl_path :
    AreNames
      (codes "accesscontrolpolicy/accesscontrollist")
      (codes "accesscontrolpolicy")
      (codes "accesscontrollist")
unfolding all_slashes parse_path parse_path_from
acl_path = (refl, refl)

module _ (b : Builder) (l : IsBuilder b) where
  pub add_owner-nodes :
      (acl : AccessControlPolicy) (m : Option (OStream b)) (n : Bytes) (children : List Node)
      (os : List Open)
      → Stands b l m (n, children) os
      → Stands b l (m >>= add_owner b acl) (n, children ++ owner_nodes acl) os
  unfolding add_owner owner_nodes owner_fields
  add_owner-nodes acl m n children os at_m =
      from b l m (n, children) os at_m (add_owner b acl) _ _
        λ s at_s.
          elim (Bool-cases (not (is_empty acl.owner_display_name) || not (is_empty acl.owner_id))) [
            | inl e ↦
                let f0 = subscript-name b l (some s) _ _ os owner-IsName at_s in
                let f1 =
                  optional-leaf b l _ acl.owner_display_name _ acl.owner_display_name _ [] _
                    displayname-IsName f0 in
                let f2 =
                  optional-leaf b l _ acl.owner_id _ acl.owner_display_name _ _ _ ownerid-IsName
                    f1 in
                rw e (subscript-slash b l _ _ _ os f2)
            | inr e ↦ rw (e, append-nil children) at_s
          ]

  -- The fields of a grantee, in an open element `grantee`.
  grantee_fields-nodes :
      (i : Grantee) (m : Option (OStream b)) (os : List Open)
      → Stands b l m (codes "grant", []) os
      → is_no_grantee i ≡ false
      → Stands b l
          (m >>= add_grantee b i)
          (codes "grantee", grantee_fields i)
          ((codes "grant", []) ∷ os)
  unfolding add_grantee grantee_fields
  grantee_fields-nodes i m os at_m e =
      from b l m (codes "grant", []) os at_m (add_grantee b i) _ _
        λ s at_s.
          let f0 = subscript-name b l (some s) _ _ os grantee-IsName at_s in
          let f1 =
            optional-leaf b l _ i.display_name _ i.display_name _ [] _ displayname-IsName f0 in
          let f2 =
            optional-leaf b l _ i.email_address _ i.email_address _ _ _ emailaddress-IsName f1 in
          let f3 = optional-leaf b l _ i.id _ i.id _ _ _ id-IsName f2 in
          let f4 = optional-leaf b l _ i.xsi_type _ i.xsi_type _ _ _ kind-IsName f3 in
          let f5 = optional-leaf b l _ i.uri _ i.uri _ _ _ uri-IsName f4 in rw e f5

  no_grantee :
      (i : Grantee) (m : Option (OStream b)) → is_no_grantee i ≡ true → m >>= add_grantee b i ≡ m
  unfolding add_grantee
  no_grantee i none e = refl
  no_grantee i (some s) e = rw e refl

  -- Behind a grant, what is added from there closes to what the grant adds around it.
  unfoldable pub Follows : Option (OStream b) → Grant → Bytes → List Node → List Open → Type 0
  Follows m g n children os =
      (k : Bytes) × (inside : List Node) × (path : List Open) × Stands b l m (k, inside) path
      × ((rest : List Node)
          → closed (k, inside ++ rest) path ≡ closed (n, children ++ nested_in g rest) os)

  pub add_grant-nested :
      (g : Grant) (m : Option (OStream b)) (n : Bytes) (children : List Node) (os : List Open)
      → is_empty g.permission ≡ false
      → Stands b l m (n, children) os
      → Follows (m >>= add_grant b g) g n children os
  unfolding Follows add_grant nested_in
  add_grant-nested g m n children os p (s, e, hm, cur, path, down) =
      let f0 =
        subscript-name b l (some s) _ (n, children) os grant-IsName (s, e, refl, cur, path, down) in
      elim (Bool-cases (is_no_grantee g.grantee)) [
        | inl e ↦
            let f1 = subscript-slash b l _ _ _ _ f0 in
            let f2 = field-leaf b l _ _ g.permission _ os permission-IsName f1 in
            (
              n,
              (children ++ element (codes "grant") [] nil ∷ [])
                  ++ leaf (codes "permission") g.permission ∷ [],
              os,
              rw (hm, p, no_grantee g.grantee _ e) f2,
              λ rest. rw (e, append_assoc, append_assoc) refl,
            )
        | inr e ↦
            let f1 = grantee_fields-nodes g.grantee _ _ f0 e in
            let f2 = subscript-slash b l _ _ _ _ f1 in
            let f3 = field-leaf b l _ _ g.permission _ _ permission-IsName f2 in
            (
              codes "grant",
              element (codes "grantee") [] (nodes_of (grantee_fields g.grantee))
                  ∷ leaf (codes "permission") g.permission
                  ∷ [],
              (n, children) ∷ os,
              rw (hm, p) f3,
              λ rest. rw e refl,
            )
      ]

  pub add_grants-nested :
      (grants : List Grant) (m : Option (OStream b)) (n : Bytes) (children : List Node)
      (os : List Open)
      → All (λ g. is_empty g.permission ≡ false) grants
      → Stands b l m (n, children) os
      → (o : Open) × (path : List Open) × Stands b l (m >>= add_grants b grants) o path
        × (closed o path ≡ closed (n, children ++ nested grants) os)
  unfolding add_grants nested Follows
  add_grants-nested [] none n children os h (s, e, hm, cur, path, down) = absurd (cc hm)
  add_grants-nested [] (some s) n children os h at_s =
      ((n, children), os, at_s, rw (append-nil children) refl)
  add_grants-nested (g ∷ grants) m n children os (p, h) at_m =
      let (k, inside, path, at_k, follows) = add_grant-nested g m n children os p at_m in
      let (o, path', at_o, same) = add_grants-nested grants _ k inside path h at_k in
      (
        o,
        path',
        rw (bind-steps m (add_grant b g) (add_grants b grants)) at_o,
        same ∙ follows (nested grants),
      )
