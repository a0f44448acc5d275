-- ===== src/Cache/Indexed.antt =====
-- What the tag index has after a key was taken out of it or put into it.

use acadid.Common.{
  String, Option, none, some, List, [], ◌∷◌, Bool, true, false, ◌&&◌, ◌||◌, ◌≡◌, refl, sym, ◌∙◌,
  subst, inl, inr, elem, coalesce, ◌==◌, string_Eq, arith, Bool-cases, Option-cases, if◌then◌else◌,
}
use acadid.Common.Assoc.{lookup, put, remove, lookup-put, lookup-remove}
use acadid.Cache.Entries.{
  CacheEntry, TagIndex, delete_key, add_key, is_empty, unindex_tag, unindex, index_tags,
}

-- Whether the index has the key under the tag, and whether the key's entry carries the tag.
abbrev pub indexes : TagIndex → String → String → Bool
indexes index tag key = elem key (coalesce (lookup tag index) [])

abbrev pub tags_of {ℓ} : {V : Type ℓ} → Option (CacheEntry V) → List String
tags_of none = []
tags_of (some entry) = entry.tags

elem-delete_key :
    (k j : String) (keys : List String)
    → elem j (delete_key k keys) ≡ (if k == j then false else elem j keys)
unfolding delete_key
elem-delete_key k j [] = ground arith
elem-delete_key k j (i ∷ keys) = ground (
  arith,
  elem-delete_key k j keys,
  string_Eq.beq_iff i k,
  string_Eq.beq_iff i j,
  string_Eq.beq_iff k j,
)

elem-add_key :
    (k j : String) (keys : List String) → elem j (add_key k keys) ≡ ((k == j) || elem j keys)
unfolding add_key
elem-add_key k j keys = elim (Bool-cases (elem k keys)) [
  | inr absent ↦ rw absent refl
  | inl here ↦ elim (Bool-cases (k == j)) [
    | inr other ↦ rw (here, other) refl
    | inl same ↦
        rw (here, same) (subst (λ i. elem i keys ≡ true) ((string_Eq.beq_iff k j).0 same) here)
  ]
]

elem-empty : (j : String) (keys : List String) → is_empty keys ≡ true → elem j keys ≡ false
elem-empty j [] h = refl
elem-empty j (k ∷ keys) h = cc

-- What the index has under a tag after its keys were replaced by `rest`, or it was removed.
indexes-replaced :
    (tag t j : String) (rest : List String) (index : TagIndex)
    → indexes (if is_empty rest then remove tag index else put tag rest index) t j
      ≡ (if tag == t then elem j rest else indexes index t j)
indexes-replaced tag t j rest index = elim (Bool-cases (is_empty rest)) [
  | inl empty ↦ elim (Bool-cases (tag == t)) [
    | inl same ↦ rw (empty, lookup-remove, same) (sym (elem-empty j rest empty))
    | inr other ↦ rw (empty, lookup-remove, other) refl
  ]
  | inr full ↦ elim (Bool-cases (tag == t)) [
    | inl same ↦ rw (full, lookup-put, same) refl
    | inr other ↦ rw (full, lookup-put, other) refl
  ]
]

indexes-unindex_tag :
    (k tag t j : String) (index : TagIndex)
    → indexes (unindex_tag k tag index) t j
      ≡ (if (k == j) && (tag == t) then false else indexes index t j)
unfolding unindex_tag
indexes-unindex_tag k tag t j index = elim (Option-cases (lookup tag index)) [
  | inl nothing ↦ elim (Bool-cases (tag == t)) [
    | inr other ↦ rw (nothing, other) (ground arith)
    | inl same ↦
        rw (nothing, same)
          (rw (subst (λ i. lookup i index ≡ none) ((string_Eq.beq_iff tag t).0 same) nothing)
            (ground arith))
  ]
  | inr (keys, found) ↦ elim (Bool-cases (tag == t)) [
    | inr other ↦
        rw (found, indexes-replaced tag t j (delete_key k keys) index, other) (ground arith)
    | inl same ↦
        rw (found, indexes-replaced tag t j (delete_key k keys) index, same)
          (rw
            (
              subst (λ i. lookup i index ≡ some keys) ((string_Eq.beq_iff tag t).0 same) found,
              elem-delete_key k j keys,
            )
            (ground arith))
  ]
]

pub indexes-unindex :
    (k : String) (tags : List String) (t j : String) (index : TagIndex)
    → indexes (unindex k tags index) t j
      ≡ (if (k == j) && elem t tags then false else indexes index t j)
unfolding unindex
indexes-unindex k [] t j index = ground arith
indexes-unindex k (tag ∷ tags) t j index =
    indexes-unindex k tags t j (unindex_tag k tag index)
    ∙ rw (indexes-unindex_tag k tag t j index) (ground arith)

pub indexes-index_tags :
    (k : String) (tags : List String) (t j : String) (index : TagIndex)
    → indexes (index_tags k tags index) t j ≡ (((k == j) && elem t tags) || indexes index t j)
unfolding index_tags
indexes-index_tags k [] t j index = ground arith
indexes-index_tags k (tag ∷ tags) t j index =
    indexes-index_tags k tags t j _ ∙ (elim (Bool-cases (tag == t)) [
      | inr other ↦ rw (lookup-put, other) (ground arith)
      | inl same ↦
          rw (lookup-put, same, elem-add_key)
            (rw
              (subst (λ i. lookup i index ≡ lookup t index) (sym ((string_Eq.beq_iff tag t).0 same))
                refl)
              (ground arith))
    ])
