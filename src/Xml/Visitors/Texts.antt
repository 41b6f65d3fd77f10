-- ===== src/Xml/Visitors/Texts.antt =====
-- What `DOMToDict` holds: the texts of the document by their paths.
use s3client.Common.{
  List, [], ◌∷◌, ◌++◌, Bytes, Bool, true, false, same_text, same_text-eq, same_text_self,
  if◌then◌else◌, Bool-cases, inl, inr, ◌≡◌, refl, sym, ap, ◌∙◌, arith, append_assoc, append-nil,
}
use s3client.Common.Dict.{Dict, extend, lookup_all, lex_lt-tri, lex_lt_irrefl}
use s3client.Common.Dict.Laws.{lookup_all-extend}
use s3client.Text.Url.{to_lower}
use s3client.Xml.Dom.{Node, Nodes, element, text, other, nil, cons, Dom, IsDom, walk}
use s3client.Xml.Path.{to_path}
use s3client.Xml.Visitors.{dict_visitor, dict_of}
use s3client.Xml.Visitors.Find.{pop_back-append}

-- The texts of the document in their order, each with the path of its element.
unfoldable mutual
  pub texts : List Bytes → Node → List (Bytes × Bytes)
  texts cur (element name attributes ns) = texts_all (cur ++ to_lower name ∷ []) ns
  texts cur (text t) = (to_path cur, t) ∷ []
  texts cur other = []

  pub texts_all : List Bytes → Nodes → List (Bytes × Bytes)
  texts_all cur nil = []
  texts_all cur (cons n ns) = texts cur n ++ texts_all cur ns

-- The texts at one path.
unfoldable pub at_key : Bytes → List (Bytes × Bytes) → List Bytes
at_key k [] = []
at_key k ((j, t) ∷ ts) = let rest = at_key k ts in if same_text k j then t ∷ rest else rest

joined :
    (b : Bool) (t : Bytes) (ts : List Bytes)
    → (if b then t ∷ [] else []) ++ ts ≡ (if b then t ∷ ts else ts)
joined true t ts = refl
joined false t ts = refl

unfoldable pub push_all : List (Bytes × Bytes) → Dict (List Bytes) → Dict (List Bytes)
push_all [] d = d
push_all ((k, t) ∷ ts) d = push_all ts (extend k (t ∷ []) d)

push_all-append :
    (xs ys : List (Bytes × Bytes)) (d : Dict (List Bytes))
    → push_all (xs ++ ys) d ≡ push_all ys (push_all xs d)
unfolding push_all
push_all-append [] ys d = refl
push_all-append ((k, t) ∷ xs) ys d = push_all-append xs ys (extend k (t ∷ []) d)

pushed :
    (k j t : Bytes) (d : Dict (List Bytes))
    → lookup_all k (extend j (t ∷ []) d) ≡ lookup_all k d ++ (if same_text k j then t ∷ [] else [])
pushed k j t d = elim (Bool-cases (same_text k j)) [
  | inl e ↦
      let same : k ≡ j = same_text-eq k j e in
      rw (e, ← same, lookup_all-extend, lex_lt_irrefl k) refl
  | inr e ↦ ground (
    arith,
    lookup_all-extend k j (t ∷ []) d,
    lex_lt-tri k j,
    same_text_self k,
    append-nil (lookup_all k d),
  )
]

lookup_all-push_all :
    (k : Bytes) (ts : List (Bytes × Bytes)) (d : Dict (List Bytes))
    → lookup_all k (push_all ts d) ≡ lookup_all k d ++ at_key k ts
unfolding push_all at_key
lookup_all-push_all k [] d = sym (append-nil (lookup_all k d))
lookup_all-push_all k ((j, t) ∷ ts) d =
    lookup_all-push_all k ts (extend j (t ∷ []) d)
    ∙ rw pushed (
        append_assoc (lookup_all k d) (if same_text k j then t ∷ [] else []) (at_key k ts)
        ∙ ap (λ (r : List Bytes). lookup_all k d ++ r) (joined (same_text k j) t (at_key k ts)))

module _ (dom : Dom) (d : IsDom dom) where
  mutual
    unfolding texts dict_visitor walk push_all

    dict-node :
        (cur : List Bytes) (n : Node) (m : Dict (List Bytes))
        → dom.accept dict_visitor n (cur, m) ≡ (true, (cur, push_all (texts cur n) m))
    dict-node cur (element name attributes ns) m =
        d.accept-element dict_visitor name attributes ns (cur, m)
        ∙ rw (dict-nodes (cur ++ to_lower name ∷ []) ns m, pop_back-append) refl
    dict-node cur (text t) m = d.accept-text dict_visitor t (cur, m)
    dict-node cur other m = d.accept-other dict_visitor (cur, m)

    pub dict-nodes :
        (cur : List Bytes) (ns : Nodes) (m : Dict (List Bytes))
        → walk dom dict_visitor ns (cur, m) ≡ (cur, push_all (texts_all cur ns) m)
    dict-nodes cur nil m = refl
    dict-nodes cur (cons n ns) m = rw (dict-node cur n m, push_all-append, dict-nodes cur ns) refl

  -- For every path, the entry of the dictionary is the list of the texts whose elements have that
  -- path in lower case, in the order of the document.
  pub dom_to_dict_texts :
      (doc : Nodes) (k : Bytes) → lookup_all k (dict_of dom doc) ≡ at_key k (texts_all [] doc)
  unfolding dict_of lookup_all
  dom_to_dict_texts doc k =
      ap (λ (s : List Bytes × Dict (List Bytes)). lookup_all k s.1) (dict-nodes [] doc [])
      ∙ lookup_all-push_all k (texts_all [] doc) []
