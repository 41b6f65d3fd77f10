-- ===== src/Xml/ToText.antt =====
-- `ToTextVisitor` and `XMLToText` of lib/src/xml_path.cpp. The text is not escaped.
use s3client.Common.{
  ℕ, ◌+◌, ◌-◌, List, [], ◌∷◌, ◌++◌, Bytes, Option, none, some, Bool, true, false, ◌==◌,
  if◌then◌else◌, codes, replicate,
}
use s3client.Common.Dict.{Dict, lookup}
use s3client.Hash.Utility.{◌>>=◌}
use s3client.Xml.Dom.{Nodes, Visitor, Dom, walk}

-- `map_`, `eol_` and `indentIncrement_`.
pub record Format : Type 0 where
  pub keys : Dict Bytes
  pub eol : ℕ
  pub indent_increment : ℕ

-- `os_` and `indent_`; none behind an exception.
abbrev pub Printed : Type 0
Printed = Option (Bytes × ℕ)

-- `Map`: a key that is missing throws, unless there are no keys at all.
pub map_text : Dict Bytes → Bytes → Option Bytes
map_text [] k = some k
map_text (p ∷ keys) k = lookup k (p ∷ keys)

pub end_of_line : Format → Bytes
end_of_line f = if f.eol == 0 then [] else f.eol ∷ []

pub attributes_text : Format → List (Bytes × Bytes) → Option Bytes
attributes_text f [] = some []
attributes_text f ((name, value) ∷ attributes) = do
  v ← map_text f.keys value
  rest ← attributes_text f attributes
  some (codes " " ++ (name ++ (codes "=\"" ++ (v ++ (codes "\"" ++ rest)))))

pub opening : Format → Bytes → List (Bytes × Bytes) → Printed → Printed
opening f name attributes s = do
  (text, indent) ← s
  attributes' ← attributes_text f attributes
  let behind : Bytes = elim attributes [ [] ↦ [] | a ∷ rest ↦ codes " " ]
  some (
    text
        ++ (replicate indent 32
            ++ (codes "<" ++ (name ++ (attributes' ++ (behind ++ (codes ">" ++ end_of_line f)))))),
    indent + f.indent_increment,
  )

pub closing : Format → Bytes → Printed → Printed
closing f name s = do
  (text, indent) ← s
  let indent' = indent - f.indent_increment
  some (
    text ++ (replicate indent' 32 ++ (codes "</" ++ (name ++ (codes ">" ++ end_of_line f)))),
    indent',
  )

pub text_line : Format → Bytes → Printed → Printed
text_line f t s = do
  (text, indent) ← s
  t' ← map_text f.keys t
  some (text ++ (replicate (indent + f.indent_increment) 32 ++ (t' ++ end_of_line f)), indent)

pub thrown : Printed → Bool × Printed
thrown none = (false, none)
thrown (some s) = (true, some s)

pub to_text_visitor : Format → Visitor Printed
to_text_visitor f = record {
  enter = λ e name attributes s. thrown (opening f name attributes s);
  exit = λ name s. thrown (closing f name s);
  visit = λ t s. thrown (text_line f t s);
}

pub header_text : Bool → Format → Bytes
header_text false f = []
header_text true f = codes "<?xml version=\"1.0\" encoding=\"utf-8\"?>" ++ end_of_line f

-- `XMLToText`.
pub xml_to_text : Dom → Nodes → Bool → ℕ → ℕ → Dict Bytes → Option Bytes
xml_to_text dom doc header eol indent keys =
    let f : Format = record { keys = keys; eol = eol; indent_increment = indent } in
    do (text, n) ← walk dom (to_text_visitor f) doc (some (header_text header f, 0)); some text
