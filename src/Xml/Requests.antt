-- ===== src/Xml/Requests.antt =====
-- The documents that requests send: `GenerateAclXML`, and the tags of `GeneratePutBucketTaggingRequest`
-- and `GeneratePutObjectTaggingRequest`, of lib/src/api/xml_parser.cpp.
use s3client.Common.{
  ℕ, List, [], ◌∷◌, ◌++◌, Bytes, Option, none, some, Bool, true, false, not, ◌&&◌, ◌||◌,
  if◌then◌else◌, codes,
}
use s3client.Common.Dict.{Dict}
use s3client.Hash.Utility.{◌>>=◌}
use s3client.Sign.{is_empty}
use s3client.Xml.Dom.{Dom}
use s3client.Xml.Builder.{Builder}
use s3client.Xml.Stream.{OStream, ◌▸◌, new_stream, subscript, assign_text, field}
use s3client.Xml.ToText.{xml_to_text}
use s3client.Xml.Responses.{AccessControlPolicy, Grant, Grantee}
pub mod Fields
pub mod Nested
pub mod Permissions
pub mod Tags

-- `Empty`.
unfoldable pub is_no_grantee : Grantee → Bool
is_no_grantee g =
    is_empty g.display_name
    && (is_empty g.email_address && (is_empty g.id && (is_empty g.xsi_type && is_empty g.uri)))

module _ (b : Builder) where
  -- A field that is inserted unless `given` is empty.
  unfoldable pub optional : Bytes → Bytes → Bytes → OStream b → Option (OStream b)
  optional given name t s = if is_empty given then some s else field b name t s

  -- The field `ownerid` is given the name of the owner.
  unfoldable pub add_owner : AccessControlPolicy → OStream b → Option (OStream b)
  add_owner acl s =
      let written =
        (subscript b (codes "owner")
            ▸ optional acl.owner_display_name (codes "displayname") acl.owner_display_name
            ▸ optional acl.owner_id (codes "ownerid") acl.owner_display_name
            ▸ subscript b (codes "/"))
          s in
      if not (is_empty acl.owner_display_name) || not (is_empty acl.owner_id)
      then written
      else some s

  unfoldable pub add_grantee : Grantee → OStream b → Option (OStream b)
  add_grantee i s =
      let written =
        (subscript b (codes "grantee")
            ▸ optional i.display_name (codes "displayname") i.display_name
            ▸ optional i.email_address (codes "emailaddress") i.email_address
            ▸ optional i.id (codes "id") i.id
            ▸ optional i.xsi_type (codes "type") i.xsi_type
            ▸ optional i.uri (codes "uri") i.uri)
          s in
      if is_no_grantee i then some s else written

  -- Behind the grantee one level is left, whether or not there is one.
  unfoldable pub add_grant : Grant → OStream b → Option (OStream b)
  add_grant g s =
      let written =
        (subscript b (codes "grant")
            ▸ add_grantee g.grantee
            ▸ subscript b (codes "/")
            ▸ field b (codes "permission") g.permission)
          s in
      if is_empty g.permission then none else written

  unfoldable pub add_grants : List Grant → OStream b → Option (OStream b)
  add_grants [] s = some s
  add_grants (g ∷ grants) s = (add_grant g ▸ add_grants grants) s

  unfoldable pub acl_stream : AccessControlPolicy → Option (OStream b)
  acl_stream acl =
      (subscript b (codes "accesscontrolpolicy/accesscontrollist")
          ▸ add_owner acl
          ▸ add_grants acl.grants)
        (new_stream b)

  unfoldable pub add_tags : Dict Bytes → OStream b → Option (OStream b)
  add_tags [] s = some s
  add_tags ((k, v) ∷ tags) s =
      (subscript b (codes "Tag")
          ▸ field b (codes "Key") k
          ▸ field b (codes "Value") v
          ▸ subscript b (codes "/")
          ▸ add_tags tags)
        s

  unfoldable pub tags_stream : Dict Bytes → Option (OStream b)
  tags_stream tags = (subscript b (codes "Tagging/TagSet") ▸ add_tags tags) (new_stream b)

  -- `XMLText`.
  unfoldable pub xml_text : Dom → OStream b → Option Bytes
  xml_text dom s = xml_to_text dom (b.nodes s.doc) true 0 0 []

  -- `GenerateAclXML`, and the body of the tagging requests.
  unfoldable pub generate_acl_xml : Dom → AccessControlPolicy → Option Bytes
  generate_acl_xml dom acl = acl_stream acl >>= xml_text dom

  unfoldable pub tagging_xml : Dom → Dict Bytes → Option Bytes
  tagging_xml dom tags = tags_stream tags >>= xml_text dom
