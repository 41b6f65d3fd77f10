-- ===== src/Xml/Requests/Permissions.antt =====
-- What `GenerateAclXML` returns, with and without a grant that lacks its permission.
use s3client.Common.{
  List, [], ◌∷◌, Option, none, Bool, true, false, ◌||◌, if◌then◌else◌, ◌≡◌, refl, ◌∙◌, ap, All,
  Bool-cases, Bytes, arith,
}
use mathlib.Core.Logic.{inl, inr}
use s3client.Sign.{is_empty}
use s3client.Hash.Utility.{◌>>=◌}
use s3client.Xml.Dom.{Node, Dom}
use s3client.Xml.Builder.{Builder, Open, IsBuilder}
use s3client.Xml.Stream.{OStream}
use s3client.Xml.Stream.At.{Stands, subscript-start, bind-steps}
use s3client.Xml.ToText.{xml_to_text}
use s3client.Xml.Responses.{AccessControlPolicy, Grant}
use s3client.Xml.Requests.{add_grant, add_grants, acl_stream, xml_text, generate_acl_xml}
use s3client.Xml.Requests.Nested.{
  acl_nodes, acl_path, Follows, add_owner-nodes, add_grant-nested, add_grants-nested,
}

pub lacks_permission : List Grant → Bool
lacks_permission [] = false
lacks_permission (g ∷ grants) = is_empty g.permission || lacks_permission grants

permitted :
    (grants : List Grant)
    → lacks_permission grants ≡ false
    → All (λ g. is_empty g.permission ≡ false) grants
unfolding lacks_permission
permitted [] h = tt
permitted (g ∷ grants) h = (ground arith, permitted grants (ground arith))

module _ (b : Builder) (l : IsBuilder b) where
  add_grants-none :
      (grants : List Grant) (m : Option (OStream b)) (n : Bytes) (children : List Node)
      (os : List Open)
      → lacks_permission grants ≡ true
      → Stands b l m (n, children) os
      → m >>= add_grants b grants ≡ none
  unfolding add_grants add_grant Follows lacks_permission
  add_grants-none [] m n children os h at_m = absurd (cc h)
  add_grants-none (g ∷ grants) m n children os h at_m = elim (Bool-cases (is_empty g.permission)) [
    | inl p ↦ let (s, e, hm, cur, path, down) = at_m in rw (hm, p) refl
    | inr p ↦
        let (k, inside, path, at_k, follows) = add_grant-nested b l g m n children os p at_m in
        bind-steps m (add_grant b g) (add_grants b grants)
        ∙ add_grants-none grants _ k inside path (rw p at h) at_k
  ]

  nested_document :
      (dom : Dom) (acl : AccessControlPolicy)
      → lacks_permission acl.grants ≡ false
      → generate_acl_xml b dom acl ≡ xml_to_text dom (acl_nodes acl) true 0 0 []
  unfolding acl_nodes generate_acl_xml acl_stream xml_text
  nested_document dom acl h =
      let f0 = add_owner-nodes b l acl _ _ [] _ (subscript-start b l _ _ _ acl_path) in
      let ((n, children), path, (s, e, hm, cur, here, down), same) =
        add_grants-nested b l acl.grants _ _ _ _ (permitted acl.grants h) f0 in
      rw (hm, l.nodes-path e s.doc (n, children) path here, same) refl

  no_document :
      (dom : Dom) (acl : AccessControlPolicy)
      → lacks_permission acl.grants ≡ true
      → generate_acl_xml b dom acl ≡ none
  unfolding generate_acl_xml acl_stream
  no_document dom acl h =
      ap (λ s. s >>= xml_text b dom)
        (add_grants-none acl.grants _ _ _ _ h
          (add_owner-nodes b l acl _ _ [] _ (subscript-start b l _ _ _ acl_path)))

  -- `GenerateAclXML` throws if a grant lacks its permission. Otherwise it prints one document, in which the
  -- owner stands inside the list of grants with its name for its identity, each grant that has a grantee
  -- holds the grants behind it, and the permission of a grant without a grantee stands beside the grant.
  pub generate_acl_xml-acl_nodes :
      (dom : Dom) (acl : AccessControlPolicy)
      → generate_acl_xml b dom acl ≡ (
          if lacks_permission acl.grants then none else xml_to_text dom (acl_nodes acl) true 0 0 [])
  generate_acl_xml-acl_nodes dom acl = elim (Bool-cases (lacks_permission acl.grants)) [
    | inl h ↦ rw h (no_document dom acl h)
    | inr h ↦ rw h (nested_document dom acl h)
  ]
