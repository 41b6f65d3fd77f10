-- ===== src/Xml/Visitors.antt =====
-- The visitors of lib/src/xml_path.cpp and the queries that run them. `caseInsensitive_` is true
-- wherever the code makes a visitor, so names are compared in lower case.
pub mod Find
pub mod Texts
pub mod Keys
use s3client.Common.{
  List, [], ◌∷◌, ◌++◌, Bytes, Option, none, some, Bool, true, false, same_text, if◌then◌else◌, map,
}
use s3client.Common.Dict.{Dict, extend}
use s3client.Hash.Utility.{◌>>=◌}
use s3client.Text.Url.{to_lower}
use s3client.Xml.Dom.{Node, Nodes, Visitor, Dom, walk}
use s3client.Xml.Path.{trim, parse_path, to_path}

pub is_none {ℓ} : {A : Type ℓ} → Option A → Bool
is_none none = true
is_none (some a) = false

pub same_path : List Bytes → List Bytes → Bool
same_path [] [] = true
same_path [] (q ∷ qs) = false
same_path (p ∷ ps) [] = false
same_path (p ∷ ps) (q ∷ qs) = if same_text p q then same_path ps qs else false

pub pop_back : List Bytes → List Bytes
pop_back [] = []
pop_back (n ∷ []) = []
pop_back (n ∷ m ∷ ns) = n ∷ pop_back (m ∷ ns)

-- `FindVisitor`: its state is `pElement_`.
unfoldable pub find_visitor : Bytes → Visitor (Option Node)
find_visitor element = record {
  enter = λ e name attributes found.
      if same_text (to_lower name) element then (false, some e) else (true, found);
  exit = λ name found. (is_none found, found);
  visit = λ t found. (true, found);
}

-- `PathVisitor`: its state is `curPath_` and `pElement_`, with `found_` if there is one.
unfoldable pub path_visitor : List Bytes → Visitor (List Bytes × Option Node)
path_visitor path = record {
  enter = λ e name attributes s.
      let cur = s.0 ++ to_lower name ∷ [] in
      if same_path cur path then (false, (cur, some e)) else (true, (cur, s.1));
  exit = λ name s. if is_none s.1 then (true, (pop_back s.0, s.1)) else (false, s);
  visit = λ t s. (true, s);
}

-- `MultiPathVisitor` and `MultiVisitor`, which differ in the children that they take: their state is
-- `curPath_`, `elements_` and `terminate_`.
pub record Matches : Type 0 where
  pub cur_path : List Bytes
  pub elements : List Node
  pub terminate : Bool

unfoldable pub multi_visitor : (Node → List Node) → List Bytes → Visitor Matches
multi_visitor children path = record {
  enter = λ e name attributes s.
      let cur = s.cur_path ++ to_lower name ∷ [] in
      if same_path cur path
      then elim (children e) [
        | [] ↦ (false, record { cur_path = cur; elements = s.elements; terminate = true })
        | c ∷ cs ↦ (
          false,
          record { cur_path = cur; elements = s.elements ++ c ∷ cs; terminate = s.terminate },
        )
      ]
      else (true, record { cur_path = cur; elements = s.elements; terminate = s.terminate });
  exit = λ name s. if s.terminate then (false, s) else (
    true,
    record { cur_path = pop_back s.cur_path; elements = s.elements; terminate = false },
  );
  visit = λ t s. (true, s);
}

-- `DOMToDictVisitor`: `curPath_` and `dict_`.
unfoldable pub dict_visitor : Visitor (List Bytes × Dict (List Bytes))
dict_visitor = record {
  enter = λ e name attributes s. (true, (s.0 ++ to_lower name ∷ [], s.1));
  exit = λ name s. (true, (pop_back s.0, s.1));
  visit = λ t s. (true, (s.0, extend (to_path s.0) (t ∷ []) s.1));
}

module _ (dom : Dom) where
  -- The text of the element that a visitor found.
  pub text_at : Option Node → Option Bytes
  text_at none = some []
  text_at (some e) = elim (dom.get_text e) [ none ↦ some [] | some t ↦ trim t ]

  -- `FindElementText` of a document, and of a text; `none` is an exception.
  pub find_element_text_in : Nodes → Bytes → Option Bytes
  find_element_text_in doc element = text_at (walk dom (find_visitor (to_lower element)) doc none)

  pub find_element_text : Bytes → Bytes → Option Bytes
  find_element_text xml element = do
    doc ← dom.parse xml
    found ← find_element_text_in doc element
    trim found

  -- `GetElementText` of a document, and of an element.
  pub get_element_text_in : Nodes → Bytes → Option Bytes
  get_element_text_in doc path =
      text_at (walk dom (path_visitor (parse_path (to_lower path))) doc ([], none)).1

  pub get_element_text : Node → Bytes → Option Bytes
  get_element_text e path =
      text_at (dom.accept (path_visitor (parse_path (to_lower path))) e ([], none)).1.1

  pub parse_xml_path : Bytes → Bytes → Option Bytes
  parse_xml_path xml path = do doc ← dom.parse xml; found ← get_element_text_in doc path; trim found

  pub no_matches : Matches
  no_matches = record { cur_path = []; elements = []; terminate = false }

  -- The elements of `ParseXMLMultiPath`.
  pub multi_path_in : Nodes → Bytes → Bytes → List Node
  multi_path_in doc path child =
      (walk dom
        (multi_visitor (λ e. dom.children_named e (to_lower child)) (parse_path (to_lower path)))
        doc no_matches).elements

  pub parse_xml_multi_path : Bytes → Bytes → Bytes → Option (List Node)
  parse_xml_multi_path xml path child = do doc ← dom.parse xml; some (multi_path_in doc path child)

  pub texts_of : List Node → Bytes → Option (List Bytes)
  texts_of [] path = some []
  texts_of (e ∷ es) path = do t ← get_element_text e path; ts ← texts_of es path; some (t ∷ ts)

  -- The first name of an empty path is read out of bounds, which is `none` too.
  pub parse_xml_multi_path_text : Bytes → Bytes → Bytes → Option (List Bytes)
  parse_xml_multi_path_text xml path child_path = do
    doc ← dom.parse xml
    elim (parse_path child_path) [
      | [] ↦ none
      | head ∷ tail ↦ texts_of (multi_path_in doc path head) child_path
    ]

  pub group_texts : List Node → Dict (List Bytes) → Dict (List Bytes)
  group_texts [] d = d
  group_texts (e ∷ es) d = group_texts es (grouped (dom.get_text e))
    where
      grouped : Option Bytes → Dict (List Bytes)
      grouped none = d
      grouped (some []) = d
      grouped (some (c ∷ t)) = extend (dom.name_of e) ((c ∷ t) ∷ []) d

  -- `MultiVisitor`, which takes every child.
  pub every_child_visitor : List Bytes → Visitor Matches
  every_child_visitor path = multi_visitor dom.children path

  pub parse_xml_path_elements_text : Bytes → Bytes → Option (Dict (List Bytes))
  parse_xml_path_elements_text xml path = do
    doc ← dom.parse xml
    some (
        group_texts
          (walk dom (every_child_visitor (parse_path (to_lower path))) doc no_matches).elements [])

  pub dict_of : Nodes → Dict (List Bytes)
  dict_of doc = (walk dom dict_visitor doc ([], [])).1

  unfoldable pub dom_to_dict : Bytes → Option (Dict (List Bytes))
  dom_to_dict xml = do doc ← dom.parse xml; some (dict_of doc)
