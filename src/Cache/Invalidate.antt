-- ===== src/Cache/Invalidate.antt =====
-- The tag index against the entries over sequences of operations, and the invalidation of a tag.
use acadid.Common.{
  ℕ, ◌+◌, ◌*◌, ltb, leb, String, none, some, List, [], ◌∷◌, Bool, ◌≡◌, refl, ap, sym, ◌∙◌, subst,
  ◌⊎◌, inl, inr, elem, coalesce, ◌==◌, string_Eq, arith, Bool-cases, Option-cases, if◌then◌else◌,
}
use acadid.Common.Assoc.{lookup, lookup-put, lookup-remove, lookup-nil}
use acadid.Cache.Entries.{
  CacheEntry, Cache, set_of, delete_local, set_local, set_value, get_value, delete_all,
  invalidate_tag, invalidate_prefix, empty, clear,
}
use acadid.Cache.Indexed.{indexes, tags_of, indexes-unindex, indexes-index_tags}

-- Whether the entry of the key carries the tag.
abbrev pub carries {ℓ} : {V : Type ℓ} → Cache V → String → String → Bool
carries cache tag key = elem tag (tags_of (lookup key cache.entries))

abbrev pub IsIndexed {ℓ} : {V : Type ℓ} → Cache V → Type 0
IsIndexed cache = (tag key : String) → indexes cache.tag_index tag key ≡ carries cache tag key

module _ {ℓ} {V : Type ℓ} where
  lookup-delete_local :
      (k j : String) (c : Cache V)
      → lookup j (delete_local k c).entries ≡ (if k == j then none else lookup j c.entries)
  unfolding delete_local
  lookup-delete_local k j c = elim (Option-cases (lookup k c.entries)) [
    | inr (e, found) ↦ rw (found, lookup-remove) refl
    | inl nothing ↦ elim (Bool-cases (k == j)) [
      | inr other ↦ rw (nothing, other) refl
      | inl same ↦
          rw (nothing, same)
            (subst (λ i. lookup i c.entries ≡ none) ((string_Eq.beq_iff k j).0 same) nothing)
    ]
  ]

  delete_local-IsIndexed : (k : String) (c : Cache V) → IsIndexed c → IsIndexed (delete_local k c)
  unfolding delete_local
  delete_local-IsIndexed k c h t j = elim (Option-cases (lookup k c.entries)) [
    | inl nothing ↦ rw nothing (h t j)
    | inr (e, found) ↦ elim (Bool-cases (k == j)) [
      | inr other ↦
          rw (found, indexes-unindex k e.tags t j c.tag_index, lookup-remove, other) (h t j)
      | inl same ↦
          let at : indexes c.tag_index t j ≡ elem t e.tags =
            h t j
            ∙ ap (λ o. elem t (tags_of o))
                (subst (λ i. lookup i c.entries ≡ some e) ((string_Eq.beq_iff k j).0 same) found) in
          rw (found, indexes-unindex k e.tags t j c.tag_index, lookup-remove, same, at)
            (ground arith)
    ]
  ]

  set_local-IsIndexed :
      (k : String) (v : V) (expires : ℕ) (tags : List String) (c : Cache V)
      → IsIndexed c
      → IsIndexed (set_local k v expires tags c)
  unfolding set_local
  set_local-IsIndexed k v expires tags c h t j =
      let cleared = delete_local-IsIndexed k c h t j in
      indexes-index_tags k (set_of tags) t j (delete_local k c).tag_index
      ∙ (elim (Bool-cases (k == j)) [
        | inr other ↦ rw (lookup-put, other) cleared
        | inl same ↦ rw (lookup-put, same, cleared, lookup-delete_local k j c, same) (ground arith)
      ])

  delete_all-IsIndexed :
      (keys : List String) (c : Cache V) → IsIndexed c → IsIndexed (delete_all keys c)
  unfolding delete_all
  delete_all-IsIndexed [] c h = h
  delete_all-IsIndexed (k ∷ keys) c h =
      delete_all-IsIndexed keys (delete_local k c) (delete_local-IsIndexed k c h)

  lookup-delete_all :
      (keys : List String) (j : String) (c : Cache V)
      → lookup j (delete_all keys c).entries ≡ (if elem j keys then none else lookup j c.entries)
  unfolding delete_all
  lookup-delete_all [] j c = refl
  lookup-delete_all (k ∷ keys) j c =
      lookup-delete_all keys j (delete_local k c) ∙ rw (lookup-delete_local k j c) (ground arith)

-- What a service does with the cache.
pub data Operation {ℓ} (V : Type ℓ) : Type ℓ where
  set : (key : String) → V → (ttl_seconds : ℕ) → (tags : List String) → (now : ℕ) → Operation V
  get : (key : String) → (now : ℕ) → Operation V
  delete : (key : String) → Operation V
  drop_tag : (tag : String) → Operation V
  drop_prefix : (prefix : String) → Operation V
  drop_all : Operation V

empty-IsIndexed {ℓ} : (V : Type ℓ) → IsIndexed (empty {V = V})
empty-IsIndexed V t j = rw (lookup-nil {V = List String} t, lookup-nil {V = CacheEntry V} j) refl

module _ {ℓ} {V : Type ℓ} where
  unfoldable pub run : Operation V → Cache V → Cache V
  run (set key value ttl_seconds tags now) c = set_value key value ttl_seconds tags now c
  run (get key now) c = (get_value key now c).1
  run (delete key) c = delete_local key c
  run (drop_tag tag) c = invalidate_tag tag c
  run (drop_prefix prefix) c = invalidate_prefix prefix c
  run drop_all c = clear c

  unfoldable pub run_all : List (Operation V) → Cache V → Cache V
  run_all [] c = c
  run_all (op ∷ ops) c = run_all ops (run op c)

  get_value_cases :
      (k : String) (now : ℕ) (c : Cache V)
      → ((get_value k now c).1 ≡ c) ⊎ ((get_value k now c).1 ≡ delete_local k c)
  unfolding get_value
  get_value_cases k now c = elim (Option-cases (lookup k c.entries)) [
    | inl nothing ↦ inl (rw nothing refl)
    | inr (e, found) ↦ elim (Bool-cases (leb e.expires_at now)) [
      | inl old ↦ inr (rw (found, old) refl)
      | inr fresh ↦ inl (rw (found, fresh) refl)
    ]
  ]

  run-IsIndexed : (op : Operation V) (c : Cache V) → IsIndexed c → IsIndexed (run op c)
  unfolding run set_value get_value invalidate_tag invalidate_prefix clear
  run-IsIndexed (set k v ttl tags now) c h = elim (Bool-cases (ltb 0 ttl)) [
    | inl positive ↦ rw positive (set_local-IsIndexed k v (now + ttl * 1000) tags c h)
    | inr zero ↦ rw zero h
  ]
  run-IsIndexed (get k now) c h = elim (get_value_cases k now c) [
    | inl e ↦ subst IsIndexed (sym e) h
    | inr e ↦ subst IsIndexed (sym e) (delete_local-IsIndexed k c h)
  ]
  run-IsIndexed (delete k) c h = delete_local-IsIndexed k c h
  run-IsIndexed (drop_tag tag) c h = delete_all-IsIndexed _ c h
  run-IsIndexed (drop_prefix prefix) c h = delete_all-IsIndexed _ c h
  run-IsIndexed drop_all c h = empty-IsIndexed V

  run_all_keeps : (ops : List (Operation V)) (c : Cache V) → IsIndexed c → IsIndexed (run_all ops c)
  unfolding run_all
  run_all_keeps [] c h = h
  run_all_keeps (op ∷ ops) c h = run_all_keeps ops (run op c) (run-IsIndexed op c h)

  -- After any operations on an empty cache, the tag index has a key under a tag exactly when the
  -- entry of the key carries the tag.
  pub run_all-IsIndexed : (ops : List (Operation V)) → IsIndexed (run_all ops (empty {V = V}))
  run_all-IsIndexed ops = run_all_keeps ops empty (empty-IsIndexed V)

  -- After any operations on an empty cache, invalidating a tag takes every entry that carries the
  -- tag, and leaves the others as they are.
  pub lookup-invalidate_tag :
      (ops : List (Operation V)) (tag key : String)
      → let c = run_all ops empty in
        lookup key (invalidate_tag tag c).entries
        ≡ (if carries c tag key then none else lookup key c.entries)
  unfolding invalidate_tag
  lookup-invalidate_tag ops tag key =
      let c : Cache V = run_all ops empty in
      lookup-delete_all (coalesce (lookup tag c.tag_index) []) key c
      ∙ ap (λ b. if b then none else lookup key c.entries) (run_all-IsIndexed ops tag key)
