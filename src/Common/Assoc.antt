-- ===== src/Common/Assoc.antt =====
-- Maps as association lists: a JavaScript `Map` or object, and a table under a unique key. Their
-- order is that of the model's own writes, and no query of the code promises it.
use mathlib.Core.Path.{◌≡◌, refl, sym, ap, ◌∙◌}
use mathlib.Core.Bool.{false}
use mathlib.Core.Logic.{◌⊎◌, inl, inr}
use mathlib.Core.Option.{Option, none, some}
use mathlib.Core.List.{List, [], ◌∷◌, Memᴰ}
use native.Mathlib.Omega.{arith}
use acadid.Common.Tests.{Eq, ◌==◌, Bool-cases, if◌then◌else◌}

abbrev pub Assoc {ℓ κ} : Type ℓ → Type κ → Type (ℓ ⊔ κ)
Assoc K V = List (K × V)

module _ {ℓ κ} {K : Type ℓ} {V : Type κ} ⦃e : Eq K⦄ where
  unfoldable pub lookup : K → Assoc K V → Option V
  lookup k [] = none
  lookup k ((j, v) ∷ m) = if j == k then some v else lookup k m

  -- Removes every entry of the key.
  unfoldable pub remove : K → Assoc K V → Assoc K V
  remove k [] = []
  remove k ((j, v) ∷ m) = let rest = remove k m in if j == k then rest else (j, v) ∷ rest

  unfoldable pub put : K → V → Assoc K V → Assoc K V
  unfolding remove
  put k v m = (k, v) ∷ remove k m

  pub lookup-remove :
      (k j : K) (m : Assoc K V) → lookup j (remove k m) ≡ (if k == j then none else lookup j m)
  unfolding lookup remove
  lookup-remove k j [] = ground arith
  lookup-remove k j ((i, v) ∷ m) =
      ground (arith, lookup-remove k j m, e.beq_iff i k, e.beq_iff i j, e.beq_iff k j)

  pub lookup-put :
      (k j : K) (v : V) (m : Assoc K V)
      → lookup j (put k v m) ≡ (if k == j then some v else lookup j m)
  unfolding lookup put
  lookup-put k j v m = ground (arith, lookup-remove k j m)

  pub lookup-nil : (k : K) → lookup k [] ≡ none
  unfolding lookup
  lookup-nil k = refl

pub ruleset assoc_laws = (lookup-nil, lookup-remove, lookup-put)

pub beq_comm {ℓ} : {K : Type ℓ} ⦃e : Eq K⦄ (a b : K) → (a == b) ≡ (b == a)
beq_comm ⦃e⦄ a b = ground (arith, e.beq_iff a b, e.beq_iff b a)

-- An entry of a map, and the maps of which each entry is the one that its key finds.
infix 50 ◌∈◌
abbrev pub ◌∈◌ {ℓ κ} : {K : Type ℓ} {V : Type κ} → K × V → Assoc K V → Type (ℓ ⊔ κ)
x ∈ m = Memᴰ x m

module _ {ℓ κ} {K : Type ℓ} {V : Type κ} ⦃e : Eq K⦄ where
  abbrev pub IsTable : Assoc K V → Type (ℓ ⊔ κ)
  IsTable m = (k : K) (v : V) → (k, v) ∈ m → lookup k m ≡ some v

  -- An entry under another key than the removed one is at the head or further down.
  mem-below_head :
      (k i j : K) (u v : V) (m l : Assoc K V)
      → (i == k) ≡ false
      → ((j, v) ∈ l → ((k == j) ≡ false) × ((j, v) ∈ m))
      → (j, v) ∈ ((i, u) ∷ l)
      → ((k == j) ≡ false) × ((j, v) ∈ ((i, u) ∷ m))
  mem-below_head k i j u v m l other below (Memᴰ.head p) =
      (beq_comm k j ∙ ap (λ t. t.0 == k) p ∙ other, Memᴰ.head p)
  mem-below_head k i j u v m l other below (Memᴰ.tail h) =
      let (ne, there) = below h in (ne, Memᴰ.tail there)

  -- What is left after a removal was there, under another key.
  mem-remove :
      (k j : K) (v : V) (m : Assoc K V) → (j, v) ∈ remove k m → ((k == j) ≡ false) × ((j, v) ∈ m)
  unfolding remove
  mem-remove k j v [] h = elim h [ ]
  mem-remove k j v ((i, u) ∷ m) h = elim (Bool-cases (i == k)) [
    | inl same ↦ let (ne, t) = mem-remove k j v m (rw same at h) in (ne, Memᴰ.tail t)
    | inr other ↦ mem-below_head k i j u v m (remove k m) other (mem-remove k j v m) (rw other at h)
  ]

  pub put-IsTable : (k : K) (v : V) (m : Assoc K V) → IsTable m → IsTable (put k v m)
  unfolding put
  put-IsTable k v m t j u (Memᴰ.head p) =
      lookup-put k j v m
      ∙ rw ((e.beq_iff k j).1 (ap (λ x. x.0) (sym p))) (ap (λ x. some x.1) (sym p))
  put-IsTable k v m t j u (Memᴰ.tail h) =
      let (ne, there) = mem-remove k j u m h in lookup-put k j v m ∙ rw ne (t j u there)

  -- What a key finds is an entry.
  pub mem_of_lookup : (k : K) (v : V) (m : Assoc K V) → lookup k m ≡ some v → (k, v) ∈ m
  unfolding lookup
  mem_of_lookup k v [] h = cc
  mem_of_lookup k v ((j, u) ∷ m) h = elim (Bool-cases (j == k)) [
    | inl same ↦ Memᴰ.head (cc ((e.beq_iff j k).0 same, rw same at h))
    | inr other ↦ Memᴰ.tail (mem_of_lookup k v m (rw other at h))
  ]

  -- What a key finds after `put` is the new value, or what another key found before.
  pub lookup-put_cases :
      (k j : K) (v : V) (m : Assoc K V) {u : V}
      → lookup j (put k v m) ≡ some u
      → ((k ≡ j) × (u ≡ v)) ⊎ (((k == j) ≡ false) × (lookup j m ≡ some u))
  lookup-put_cases k j v m h = elim (Bool-cases (k == j)) [
    | inl same ↦ inl ((e.beq_iff k j).0 same, cc (rw (lookup-put, same) at h))
    | inr other ↦ inr (other, rw (lookup-put, other) at h)
  ]

  pub lookup-put_self : (k : K) (v : V) (m : Assoc K V) → lookup k (put k v m) ≡ some v
  lookup-put_self k v m = lookup-put k k v m ∙ rw ((e.beq_iff k k).1 refl)

  pub single-IsTable : (k : K) (v : V) → IsTable ((k, v) ∷ [])
  unfolding lookup
  single-IsTable k v j u (Memᴰ.head p) =
      rw ((e.beq_iff k j).1 (ap (λ x. x.0) (sym p))) (ap (λ x. some x.1) (sym p))
  single-IsTable k v j u (Memᴰ.tail m) = elim m [ ]
