-- ===== src/Xml/Visitors/Keys.antt =====
-- The paths that `DOMToDict` makes are in lower case.
use s3client.Common.{
  ℕ, ◌+◌, List, [], ◌∷◌, Bytes, false, if◌then◌else◌, ◌≡◌, refl, sym, subst, arith, All, All-append,
  Bool-cases, inl, inr,
}
use s3client.Common.Dict.{Dict, extend, keys, lex_lt}
use s3client.Text.Url.{to_lower, is_upper}
use s3client.Xml.Dom.{Node, Nodes, element, text, other, nil, cons, Dom, IsDom}
use s3client.Xml.Path.{to_path}
use s3client.Xml.Visitors.{dict_of}
use s3client.Xml.Visitors.Texts.{texts, texts_all, push_all, dict-nodes}

abbrev pub IsLowered : Bytes → Type 0
IsLowered = All (λ c. is_upper c ≡ false)

lowered : (c : ℕ) → is_upper (if is_upper c then c + 32 else c) ≡ false
unfolding is_upper
lowered c = ground arith

to_lower-IsLowered : (s : Bytes) → IsLowered (to_lower s)
unfolding to_lower
to_lower-IsLowered [] = tt
to_lower-IsLowered (c ∷ s) = (lowered c, to_lower-IsLowered s)

to_path-IsLowered : (v : List Bytes) → All IsLowered v → IsLowered (to_path v)
unfolding to_path
to_path-IsLowered [] h = tt
to_path-IsLowered (n ∷ v) (hn, h) =
    (unfold is_upper in refl, All-append _ n (to_path v) hn (to_path-IsLowered v h))

abbrev AreLowered : List (Bytes × Bytes) → Type 0
AreLowered = All (λ x. IsLowered x.0)

mutual
  unfolding texts

  texts-AreLowered : (cur : List Bytes) (n : Node) → All IsLowered cur → AreLowered (texts cur n)
  texts-AreLowered cur (element name attributes ns) h =
      texts_all-AreLowered _ ns
        (All-append _ cur (to_lower name ∷ []) h (to_lower-IsLowered name, tt))
  texts-AreLowered cur (text t) h = (to_path-IsLowered cur h, tt)
  texts-AreLowered cur other h = tt

  texts_all-AreLowered :
      (cur : List Bytes) (ns : Nodes) → All IsLowered cur → AreLowered (texts_all cur ns)
  texts_all-AreLowered cur nil h = tt
  texts_all-AreLowered cur (cons n ns) h =
      All-append _ (texts cur n) (texts_all cur ns) (texts-AreLowered cur n h)
        (texts_all-AreLowered cur ns h)

keys-extend :
    (k : Bytes) (vs : List Bytes) (m : Dict (List Bytes))
    → IsLowered k
    → All IsLowered (keys m)
    → All IsLowered (keys (extend k vs m))
unfolding keys extend
keys-extend k vs [] hk h = (hk, tt)
keys-extend k vs ((j, w) ∷ m) hk (hj, h) = elim (Bool-cases (lex_lt k j)) [
  | inl e ↦ rw e (hk, (hj, h))
  | inr e ↦ rw e (elim (Bool-cases (lex_lt j k)) [
    | inl e' ↦ rw e' (hj, keys-extend k vs m hk h)
    | inr e' ↦ rw e' (hj, h)
  ])
]

keys-push_all :
    (ts : List (Bytes × Bytes)) (m : Dict (List Bytes))
    → AreLowered ts
    → All IsLowered (keys m)
    → All IsLowered (keys (push_all ts m))
unfolding push_all
keys-push_all [] m ht h = h
keys-push_all ((k, t) ∷ ts) m (hk, ht) h =
    keys-push_all ts (extend k (t ∷ []) m) ht (keys-extend k (t ∷ []) m hk h)

pub dict_of-IsLowered :
    (dom : Dom) → IsDom dom → (doc : Nodes) → All IsLowered (keys (dict_of dom doc))
unfolding dict_of keys
dict_of-IsLowered dom d doc =
    subst (λ (s : List Bytes × Dict (List Bytes)). All IsLowered (keys s.1))
      (sym (dict-nodes dom d [] doc []))
      (keys-push_all (texts_all [] doc) [] (texts_all-AreLowered [] doc tt) tt)
