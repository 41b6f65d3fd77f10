-- ===== src/Xml/Examples.antt =====
-- The theorems on XML at a document of three elements, and texts that the code reads.
use s3client.Common.{[], ◌∷◌, none, some, true, if◌then◌else◌, codes, ◌≡◌, refl}
use s3client.Common.Dict.{lookup_all}
use s3client.Xml.Builder.Spine.{spine_builder, spine_builder-IsBuilder}
use s3client.Xml.ToText.{xml_to_text}
use s3client.Xml.Responses.{AccessControlPolicy}
use s3client.Xml.Requests.{generate_acl_xml, tagging_xml}
use s3client.Xml.Requests.Nested.{acl_nodes}
use s3client.Xml.Requests.Permissions.{lacks_permission, generate_acl_xml-acl_nodes}
use s3client.Xml.Requests.Tags.{tagging_nodes, tagging_xml-tagging_nodes}
use s3client.Xml.Dom.{Nodes, element, text, nil, cons, Dom, IsDom, walk, tree_dom, tree_dom-IsDom}
use s3client.Xml.Visitors.{path_visitor, dict_of}
use s3client.Xml.Visitors.Find.{located_all, first, at_path, path_visitor-first}
use s3client.Xml.Visitors.Texts.{texts_all, at_key, dom_to_dict_texts}
use s3client.Xml.Responses.{parse_list_object_versions}
use s3client.Xml.Responses.Versions.{list_object_versions_empty}

abbrev versions : Nodes
versions =
    cons
      (element (codes "ListVersionsResult") [] (
        cons
          (element (codes "Version") []
            (cons (element (codes "VersionId") [] (cons (text (codes "v1")) nil)) nil))
          nil))
      nil

abbrev library : Dom
library = tree_dom (λ xml. some versions)

library-IsDom : IsDom library
library-IsDom = tree_dom-IsDom (λ xml. some versions)

path_visitor-first_example :
    (walk library
      (path_visitor (codes "listversionsresult" ∷ codes "version" ∷ []))
      versions
      ([], none)).1
    ≡ first (at_path (codes "listversionsresult" ∷ codes "version" ∷ [])) (located_all [] versions)
path_visitor-first_example =
    path_visitor-first library library-IsDom (codes "listversionsresult" ∷ codes "version" ∷ [])
      versions

dom_to_dict_texts_example :
    lookup_all (codes "/listversionsresult/version/versionid") (dict_of library versions)
    ≡ at_key (codes "/listversionsresult/version/versionid") (texts_all [] versions)
dom_to_dict_texts_example =
    dom_to_dict_texts library library-IsDom versions (codes "/listversionsresult/version/versionid")

parsed : library.parse (codes "<ListVersionsResult>") ≡ some versions
unfolding tree_dom
parsed = refl

list_object_versions_empty_example :
    parse_list_object_versions library (codes "<ListVersionsResult>") ≡ some ([], [])
list_object_versions_empty_example =
    list_object_versions_empty library (codes "<ListVersionsResult>") versions library-IsDom parsed

-- An access control list of two grants: the second is inside the first.
abbrev two_grants : AccessControlPolicy
two_grants = record {
  owner_display_name = codes "me";
  owner_id = codes "1";
  grants =
      record {
        grantee = record {
          display_name = codes "you";
          email_address = [];
          id = codes "2";
          xsi_type = [];
          uri = [];
        };
        permission = codes "READ";
      }
      ∷ record {
        grantee = record {
          display_name = [];
          email_address = [];
          id = codes "3";
          xsi_type = [];
          uri = [];
        };
        permission = codes "WRITE";
      }
      ∷ [];
}

generate_acl_xml-acl_nodes_example : generate_acl_xml spine_builder library two_grants ≡ (
    if lacks_permission two_grants.grants
    then none
    else xml_to_text library (acl_nodes two_grants) true 0 0 [])
generate_acl_xml-acl_nodes_example =
    generate_acl_xml-acl_nodes spine_builder spine_builder-IsBuilder library two_grants

tagging_xml-tagging_nodes_example :
    tagging_xml spine_builder library ((codes "k", codes "v") ∷ (codes "l", codes "w") ∷ [])
    ≡ xml_to_text library
        (tagging_nodes ((codes "k", codes "v") ∷ (codes "l", codes "w") ∷ []))
        true
        0
        0
        []
tagging_xml-tagging_nodes_example =
    tagging_xml-tagging_nodes spine_builder spine_builder-IsBuilder library
      ((codes "k", codes "v") ∷ (codes "l", codes "w") ∷ [])
