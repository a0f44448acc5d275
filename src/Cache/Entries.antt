-- ===== src/Cache/Entries.antt =====
-- The entries and the tag index, and the operations on them. Times are milliseconds; counters that
-- the operations keep are left out.
use acadid.Common.{
  ℕ, ◌+◌, ◌*◌, ltb, leb, String, Option, none, some, List, [], ◌∷◌, map, Bool, true, false, filterb,
  elem, coalesce, ◌==◌, string_Eq, if_some, if◌then◌else◌,
}
use acadid.Common.Assoc.{Assoc, lookup, put, remove}
use acadid.Common.Text.{starts_with}

pub record CacheEntry {ℓ} (V : Type ℓ) : Type ℓ where
  pub value : V
  pub expires_at : ℕ
  pub tags : List String

abbrev pub TagIndex : Type 0
TagIndex = Assoc String (List String)

pub record Cache {ℓ} (V : Type ℓ) : Type ℓ where
  pub entries : Assoc String (CacheEntry V)
  pub tag_index : TagIndex

-- `keys.delete(key)` and `keys.add(key)` of a set
unfoldable pub delete_key : String → List String → List String
delete_key key [] = []
delete_key key (k ∷ keys) = let rest = delete_key key keys in if k == key then rest else k ∷ rest

unfoldable pub add_key : String → List String → List String
add_key key keys = if elem key keys then keys else key ∷ keys

abbrev pub is_empty : List String → Bool
is_empty [] = true
is_empty (k ∷ keys) = false

unfoldable pub unindex_tag : String → String → TagIndex → TagIndex
unindex_tag key tag index = if_some (lookup tag index) index (λ keys.
    let rest = delete_key key keys in
    if is_empty rest then remove tag index else put tag rest index)

unfoldable pub unindex : String → List String → TagIndex → TagIndex
unindex key [] index = index
unindex key (tag ∷ tags) index = unindex key tags (unindex_tag key tag index)

unfoldable pub index_tags : String → List String → TagIndex → TagIndex
index_tags key [] index = index
index_tags key (tag ∷ tags) index =
    index_tags key tags (put tag (add_key key (coalesce (lookup tag index) [])) index)

-- `new Set(tags)`
unfoldable pub set_of : List String → List String
set_of [] = []
set_of (tag ∷ tags) = add_key tag (set_of tags)

module _ {ℓ} {V : Type ℓ} where
  unfoldable pub delete_local : String → Cache V → Cache V
  delete_local key cache = if_some (lookup key cache.entries) cache (λ entry. record {
    entries = remove key cache.entries;
    tag_index = unindex key entry.tags cache.tag_index;
  })

  unfoldable pub set_local : String → V → ℕ → List String → Cache V → Cache V
  set_local key value expires_at tags cache =
      let cleared = delete_local key cache in
      let kept = set_of tags in
      record {
        entries =
            put key (record { value = value; expires_at = expires_at; tags = kept })
              cleared.entries;
        tag_index = index_tags key kept cleared.tag_index;
      }

  unfoldable pub set_value : String → V → ℕ → List String → ℕ → Cache V → Cache V
  set_value key value ttl_seconds tags now cache =
      if ltb 0 ttl_seconds then set_local key value (now + ttl_seconds * 1000) tags cache else cache

  unfoldable pub get_value : String → ℕ → Cache V → Option V × Cache V
  get_value key now cache =
      if_some (lookup key cache.entries) (none, cache)
        (λ entry.
          if leb entry.expires_at now
          then (none, delete_local key cache)
          else (some entry.value, cache))

  unfoldable pub delete_all : List String → Cache V → Cache V
  delete_all [] cache = cache
  delete_all (key ∷ keys) cache = delete_all keys (delete_local key cache)

  unfoldable pub invalidate_tag : String → Cache V → Cache V
  invalidate_tag tag cache = delete_all (coalesce (lookup tag cache.tag_index) []) cache

  unfoldable pub invalidate_prefix : String → Cache V → Cache V
  invalidate_prefix prefix cache =
      delete_all (filterb (starts_with prefix) (map (λ e. e.0) cache.entries)) cache

  -- A new cache.
  abbrev pub empty : Cache V
  empty = record { entries = []; tag_index = [] }

  unfoldable pub clear : Cache V → Cache V
  clear cache = empty
