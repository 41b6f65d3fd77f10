-- ===== src/Xml/Stream.antt =====
-- `XMLOStream` of lib/include/xmlstreams.h, over the builder of documents. `none` is an exception, or a
-- null pointer that is followed.
use s3client.Common.{
  ℕ, zero, suc, List, [], ◌∷◌, Bytes, Option, none, some, Bool, true, false, ◌==◌, ◌&&◌,
  if◌then◌else◌, length,
}
use s3client.Hash.Utility.{◌>>=◌}
use s3client.Xml.Path.{parse_path}
use s3client.Xml.Builder.{Builder}
pub mod At
pub mod Create

pub record OStream (b : Builder) : Type 0 where
  pub doc : b.Doc
  pub cur : Option b.Element
  pub down : Bool

-- One step after another.
infixl 5 ◌▸◌
abbrev pub ◌▸◌ : {S : Type 0} → (S → Option S) → (S → Option S) → S → Option S
◌▸◌ f g s = f s >>= g

pub data MoveAction : Type 0 where
  up_move down_move rewind_move : MoveAction

-- `all_of(…, c == '/')`.
unfoldable pub all_slashes : Bytes → Bool
all_slashes [] = true
all_slashes (c ∷ s) = c == 47 && all_slashes s

module _ (b : Builder) where
  unfoldable pub new_stream : OStream b
  new_stream = record { doc = b.start; cur = none; down = false }

  -- The loop of `Up`: from the root the pointer gets null, and is followed in the next round.
  unfoldable pub climb : ℕ → b.Doc → Option b.Element → Option (Option b.Element)
  climb zero d cur = some cur
  climb (suc level) d none = none
  climb (suc level) d (some e) = climb level d (b.parent e d)

  unfoldable pub up : ℕ → OStream b → Option (OStream b)
  up level s = elim (s.cur) [
    | none ↦ none
    | some e ↦ climb level s.doc (some e) >>= λ c. some (record s { cur = c })
  ]

  -- `Rewind`: the parent of the root is the document, so the loop ends at a null pointer.
  pub rewind : OStream b → Option (OStream b)
  rewind s = elim (s.cur) [ none ↦ some s | some e ↦ none ]

  unfoldable pub insert_text : Bytes → OStream b → OStream b
  insert_text t s = elim (s.cur) [ none ↦ s | some e ↦ record s { doc = b.set_text e t s.doc } ]

  -- The names behind the first, each below the one before it.
  unfoldable pub insert_below : List Bytes → b.Element × b.Doc → b.Element × b.Doc
  insert_below [] (e, d) = (e, d)
  insert_below (n ∷ names) (e, d) = insert_below names (b.new_child e n d)

  unfoldable pub inserted : Option b.Element → Bool → b.Element × b.Doc → OStream b
  inserted cur down (e, d) = record { doc = d; cur = if down then some e else cur; down = false }

  -- `Insert`. Below an element, the first name inserted is the whole text.
  unfoldable pub insert_elements : List Bytes → Bytes → OStream b → OStream b
  insert_elements [] text s = s
  insert_elements (n ∷ names) text s = elim (s.cur) [
    | none ↦ let r = b.new_root n s.doc in inserted (some r.0) s.down (insert_below names r)
    | some e ↦ inserted (some e) s.down (insert_below names (b.new_child e text s.doc))
  ]

  unfoldable pub insert : Bytes → OStream b → OStream b
  insert text s = insert_elements (parse_path text) text s

  pub move : MoveAction → ℕ → OStream b → Option (OStream b)
  move up_move level s = up level s
  move down_move level s = some (record s { down = true })
  move rewind_move level s = rewind s

  -- `operator[]`.
  unfoldable pub subscript : Bytes → OStream b → Option (OStream b)
  subscript text s =
      if all_slashes text then up (length text) s else some (insert text (record s { down = true }))

  -- `operator=`.
  unfoldable pub assign_text : Bytes → OStream b → Option (OStream b)
  assign_text t s = up 1 (insert_text t s)

  -- `os[name] = text`.
  unfoldable pub field : Bytes → Bytes → OStream b → Option (OStream b)
  field name t = subscript name ▸ assign_text t
