-- ===== src/RateLimit/Range.antt =====
-- The range of what a stored policy limits by, and of the limit that a request is checked with.
use acadid.Common.{
  ℕ, ◌≤◌, String, Option, none, some, List, [], ◌∷◌, ◌≡◌, refl, sym, subst, ◌∙◌, some-eq-some,
  Option-cases, Bool, true, ◌||◌, ◌==◌, inl, inr, string_Eq, arith, coalesce, if◌then◌else◌,
  Bool-cases,
}
use acadid.Common.Assoc.{Assoc, lookup, put, lookup-nil, lookup-put_cases}
use acadid.Common.Number.{Number, clamp_number_bounds}
use acadid.Common.Text.{trim, is_blank}
use acadid.Common.Json.{Json, null, obj, Fields, get}
use acadid.RateLimit.Policy.{
  Override, PolicyControl, default_products, as_number, clamp_limit, Limit, per_minute, inherited,
  member, or_least, clamp_or, is_finite, normalise_entry, normalise_entries,
  normalise_number_record, override_of, normalise_scope, normalise_scopes, normalise_policy_control,
}
use acadid.RateLimit.Limits.{
  RoutePolicy, apply_emergency_cap, override_limit, override_window, effective_request_policy,
}

-- Every value of the map satisfies the predicate.
abbrev pub Values : {V : Type 0} → (V → Type 0) → Assoc String V → Type 0
Values {V} P m = (k : String) (v : V) → lookup k m ≡ some v → P v

Values-put :
    {V : Type 0} (P : V → Type 0) (k : String) (v : V) (m : Assoc String V)
    → P v
    → Values P m
    → Values P (put k v m)
Values-put P k v m p h j u found = elim (lookup-put_cases k j v m found) [
  | inl (same, e) ↦ rw e p
  | inr (other, e) ↦ h j u e
]

abbrev pub IsLimit : ℕ → Type 0
IsLimit n = (1 ≤ n) × (n ≤ 100000)

abbrev pub IsOverride : Override → Type 0
IsOverride o = IsLimit o.limit × (1 ≤ o.window_seconds) × (o.window_seconds ≤ 3600)

-- A kept limit is a number in range, or the member of the key's name that every object inherits.
abbrev pub IsKept : (String → Bool) → String → Limit → Type 0
IsKept is_inherited key (per_minute n) = IsLimit n
IsKept is_inherited key (inherited name) = (name ≡ key) × (is_inherited key ≡ true)

-- Each entry of the map is kept so.
abbrev pub AllKept : (String → Bool) → Assoc String Limit → Type 0
AllKept is_inherited m = (k : String) (v : Limit) → lookup k m ≡ some v → IsKept is_inherited k v

-- All that a policy limits by is in range, or a member that every object inherits.
pub record IsInRange (is_inherited : String → Bool) (control : PolicyControl) : Type 0 where
  pub emergency : IsLimit control.emergency_limit
  pub products : AllKept is_inherited control.product_defaults
  pub sandbox : IsLimit control.sandbox
  pub production : IsLimit control.production
  pub institutions : AllKept is_inherited control.institution_overrides
  pub scopes : Values IsOverride control.scope_overrides

AllKept-cons :
    (is_inherited : String → Bool) (key : String) (n : ℕ) (m : Assoc String Limit)
    → IsLimit n
    → AllKept is_inherited m
    → AllKept is_inherited ((key, per_minute n) ∷ m)
unfolding lookup
AllKept-cons is_inherited key n m p h k v found = elim (Bool-cases (key == k)) [
  | inl e ↦ subst (IsKept is_inherited k) (some-eq-some (rw e at found)) p
  | inr other ↦ h k v (rw other at found)
]

AllKept-nil : (is_inherited : String → Bool) → AllKept is_inherited []
AllKept-nil is_inherited k v e = cc (lookup-nil {V = Limit} k)

default_products-AllKept : (is_inherited : String → Bool) → AllKept is_inherited default_products
default_products-AllKept i = AllKept-cons i _ 1000 _ (omega arith) (
    AllKept-cons i _ 2000 _ (omega arith) (
      AllKept-cons i _ 1500 _ (omega arith)
        (AllKept-cons i _ 2000 _ (omega arith) (AllKept-nil i))))

override_bounds :
    (o : Option Override) (limit window : ℕ)
    → ((v : Override) → o ≡ some v → IsOverride v)
    → 1 ≤ limit
    → 1 ≤ window
    → window ≤ 3600
    → (1 ≤ override_limit o limit)
      × (1 ≤ override_window o window)
      × (override_window o window ≤ 3600)
override_bounds none limit window h a b c = (a, b, c)
override_bounds (some v) limit window h a b c =
    let ((low, high), first, last) = h v refl in (low, first, last)

capped_bounds :
    (control : PolicyControl) (limit : ℕ)
    → 1 ≤ limit
    → IsLimit control.emergency_limit
    → (1 ≤ apply_emergency_cap limit control)
      × (apply_emergency_cap limit control ≤ (
          if control.emergency_enabled
          then control.emergency_limit
          else apply_emergency_cap limit control))
unfolding apply_emergency_cap
capped_bounds control limit low (least, most) = ground arith

module _ (number_of : String → Number) (is_inherited : String → Bool) where
  clamp_limit-IsLimit :
      (value : Option Json) (fallback : ℕ)
      → IsLimit fallback
      → IsLimit (clamp_limit number_of is_inherited value fallback)
  clamp_limit-IsLimit value fallback (low, high) =
      clamp_number_bounds (as_number number_of is_inherited value) 1 100000 fallback (omega arith)
        low high

  member-IsKept :
      (m : Assoc String Limit) (key : String) (v : Limit)
      → AllKept is_inherited m
      → member is_inherited key m ≡ some v
      → IsKept is_inherited key v
  unfolding member
  member-IsKept m key v h e = elim (Option-cases (lookup key m)) [
    | inr (u, found) ↦ h key v (found ∙ (rw found at e))
    | inl absent ↦ elim (Bool-cases (is_inherited key)) [
      | inl there ↦
          subst (IsKept is_inherited key) (some-eq-some (rw (absent, there) at e)) (refl, there)
      | inr missing ↦ cc (rw (absent, missing) at e)
    ]
  ]

  or_least-IsKept :
      (key : String) (a b : Option Limit)
      → ((v : Limit) → a ≡ some v → IsKept is_inherited key v)
      → ((v : Limit) → b ≡ some v → IsKept is_inherited key v)
      → IsKept is_inherited key (or_least a b)
  or_least-IsKept key none none h k = omega arith
  or_least-IsKept key none (some v) h k = k v refl
  or_least-IsKept key (some v) b h k = h v refl

  clamp_or-IsKept :
      (value : Option Number) (key : String) (fallback : Limit)
      → IsKept is_inherited key fallback
      → IsKept is_inherited key (clamp_or value fallback)
  clamp_or-IsKept value key (per_minute n) (low, high) =
      clamp_number_bounds value 1 100000 n (omega arith) low high
  clamp_or-IsKept value key (inherited name) kept = elim (Bool-cases (is_finite value)) [
    | inl e ↦ rw e (clamp_number_bounds value 1 100000 1 (omega arith) (omega arith) (omega arith))
    | inr e ↦ rw e kept
  ]

  AllKept-put :
      (key : String) (v : Limit) (m : Assoc String Limit)
      → IsKept is_inherited key v
      → AllKept is_inherited m
      → AllKept is_inherited (put key v m)
  AllKept-put key v m p h k u found = elim (lookup-put_cases key k v m found) [
    | inl (same, e) ↦
        subst (λ j. IsKept is_inherited j u) same (subst (IsKept is_inherited key) (sym e) p)
    | inr (other, e) ↦ h k u e
  ]

  normalise_entry-AllKept :
      (fallback : Assoc String Limit) (e : String × Json) (result : Assoc String Limit)
      → AllKept is_inherited fallback
      → AllKept is_inherited result
      → AllKept is_inherited (normalise_entry number_of is_inherited fallback e result)
  unfolding normalise_entry
  normalise_entry-AllKept fallback (key, raw) result f h =
      elim (Bool-cases (is_blank (trim key) || trim key == "__proto__")) [
        | inl skipped ↦ rw skipped h
        | inr clean ↦ rw clean (
            AllKept-put (trim key) _ result
              (clamp_or-IsKept _ (trim key) _ (
                or_least-IsKept (trim key) (member is_inherited (trim key) result)
                  (member is_inherited (trim key) fallback)
                  (λ v. member-IsKept result (trim key) v h)
                  (λ v. member-IsKept fallback (trim key) v f)))
              h)
      ]

  normalise_entries-AllKept :
      (fallback : Assoc String Limit) (es : List (String × Json)) (result : Assoc String Limit)
      → AllKept is_inherited fallback
      → AllKept is_inherited result
      → AllKept is_inherited (normalise_entries number_of is_inherited fallback es result)
  unfolding normalise_entries
  normalise_entries-AllKept fallback [] result f h = h
  normalise_entries-AllKept fallback (e ∷ es) result f h =
      normalise_entries-AllKept fallback es
        (normalise_entry number_of is_inherited fallback e result) f
        (normalise_entry-AllKept fallback e result f h)

  override_of-IsOverride : (fs : Fields) → IsOverride (override_of number_of is_inherited fs)
  unfolding override_of
  override_of-IsOverride fs =
      let (low, high) =
        clamp_number_bounds (as_number number_of is_inherited (get "windowSeconds" fs)) 1 3600 60
          (omega arith) (omega arith) (omega arith) in
      (clamp_limit-IsLimit (get "limit" fs) 100 (omega arith), low, high)

  normalise_scopes-IsOverride :
      (es : List (String × Json)) (result : Assoc String Override)
      → Values IsOverride result
      → Values IsOverride (normalise_scopes number_of is_inherited es result)
  unfolding normalise_scopes normalise_scope
  normalise_scopes-IsOverride [] result h = h
  normalise_scopes-IsOverride ((scope, obj fs) ∷ es) result h =
      elim (Bool-cases (is_blank (trim scope))) [
        | inl blank ↦ normalise_scopes-IsOverride es _ (rw blank h)
        | inr clean ↦
            normalise_scopes-IsOverride es _
              (rw clean (Values-put IsOverride (trim scope) _ result (override_of-IsOverride fs) h))
      ]
  normalise_scopes-IsOverride ((scope, null) ∷ es) result h =
      normalise_scopes-IsOverride es result h
  normalise_scopes-IsOverride ((scope, _) ∷ es) result h = normalise_scopes-IsOverride es result h

  -- Whatever JSON value is stored, each limit that is read from it lies between 1 and 100000, or is
  -- the member of the key's name that every object inherits; the emergency's and the default limits
  -- and those of the scopes are numbers in that range, and each window lies between a second and an
  -- hour.
  pub normalise_policy_control-IsInRange :
      (value : Option Json)
      → IsInRange is_inherited (normalise_policy_control number_of is_inherited value)
  unfolding normalise_policy_control normalise_number_record
  normalise_policy_control-IsInRange value = record {
    emergency = clamp_limit-IsLimit _ 60 (omega arith);
    products =
        normalise_entries-AllKept _ _ _ (default_products-AllKept is_inherited)
          (default_products-AllKept is_inherited);
    sandbox = clamp_limit-IsLimit _ 500 (omega arith);
    production = clamp_limit-IsLimit _ 2000 (omega arith);
    institutions =
        normalise_entries-AllKept _ _ _ (AllKept-nil is_inherited) (AllKept-nil is_inherited);
    scopes = normalise_scopes-IsOverride _ _ (λ k v e. cc (lookup-nil {V = Override} k));
  }

  -- Whatever is stored, a route that sets a limit from 1 and a window from a second to an hour is
  -- checked with a limit from 1 and a window from a second to an hour; in an emergency the limit is
  -- at most the emergency's.
  pub effective_request_policy_bounds :
      (value : Option Json) (policy : RoutePolicy)
      → 1 ≤ policy.limit
      → 1 ≤ coalesce policy.window_seconds 60
      → coalesce policy.window_seconds 60 ≤ 3600
      → let control = normalise_policy_control number_of is_inherited value in
        let e = effective_request_policy control policy in
        (1 ≤ e.limit)
        × (1 ≤ e.window_seconds)
        × (e.window_seconds ≤ 3600)
        × (e.limit ≤ (if control.emergency_enabled then control.emergency_limit else e.limit))
  unfolding effective_request_policy apply_emergency_cap
  effective_request_policy_bounds value policy limit low high =
      let range = normalise_policy_control-IsInRange value in
      let control = normalise_policy_control number_of is_inherited value in
      let o = lookup policy.scope control.scope_overrides in
      let (chosen, window, hour) =
        override_bounds o policy.limit (coalesce policy.window_seconds 60)
          (range.scopes policy.scope) limit low high in
      let (least, most) =
        capped_bounds control (override_limit o policy.limit) chosen range.emergency in
      (least, window, hour, most)
