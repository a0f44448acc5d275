-- ===== src/RateLimit/Policy.antt =====
-- The policy that founders control: `readPolicyControl` reads a stored JSON value of any shape
-- through `normalisePolicyControl`. `number_of` is the runtime's `Number(text)`, and `is_inherited`
-- tells the names that every JavaScript object has from its prototype, as `constructor`.
use acadid.Common.{
  ℕ, String, Option, none, some, List, [], ◌∷◌, Bool, true, false, ◌||◌, ◌==◌, if_some, string_Eq,
  if◌then◌else◌,
}
use acadid.Common.Assoc.{Assoc, lookup, put}
use acadid.Common.Number.{Number, nan, infinite, negative, ratio, clamp_number}
use acadid.Common.Text.{trim, is_blank}
use acadid.Common.Json.{Json, null, bool, num, str, arr, obj, Fields, get, as_record, entries}

pub record Override : Type 0 where
  pub limit : ℕ
  pub window_seconds : ℕ

-- What is kept as a limit: a number, or the member of that name that the object inherits, where that
-- was the fallback.
pub data Limit : Type 0 where
  per_minute : ℕ → Limit
  inherited : String → Limit

-- `RateLimitPolicyControl`; the reason of an emergency is for display only and is left out.
pub record PolicyControl : Type 0 where
  pub emergency_enabled : Bool
  pub emergency_limit : ℕ
  pub product_defaults : Assoc String Limit
  pub sandbox : ℕ
  pub production : ℕ
  pub institution_overrides : Assoc String Limit
  pub scope_overrides : Assoc String Override

-- `defaultRateLimitPolicyControl`
abbrev pub default_products : Assoc String Limit
default_products =
    ("INSTITUTION_PORTAL", per_minute 1000)
    ∷ ("STUDENT_APP", per_minute 2000)
    ∷ ("EMPLOYER_VERIFICATION_PORTAL", per_minute 1500)
    ∷ ("EXAM_BODY_API", per_minute 2000)
    ∷ []

abbrev pub is_true : Option Json → Bool
is_true (some (bool b)) = b
is_true (some null) = false
is_true (some (num n)) = false
is_true (some (str s)) = false
is_true (some (arr xs)) = false
is_true (some (obj fs)) = false
is_true none = false

-- `object[key]`
unfoldable pub member : (String → Bool) → String → Assoc String Limit → Option Limit
member is_inherited key m =
    if_some (lookup key m) (if is_inherited key then some (inherited key) else none) (λ v. some v)

-- `a ?? b ?? 1`
abbrev pub or_least : Option Limit → Option Limit → Limit
or_least none none = per_minute 1
or_least none (some b) = b
or_least (some a) b = a

-- `typeof value === "number" && Number.isFinite(value)`
abbrev pub is_finite : Option Number → Bool
is_finite (some (ratio n d)) = true
is_finite (some negative) = true
is_finite (some nan) = false
is_finite (some infinite) = false
is_finite none = false

-- `clampNumber(value, 1, 100_000, fallback)`, where the fallback may be no number
abbrev pub clamp_or : Option Number → Limit → Limit
clamp_or value (per_minute n) = per_minute (clamp_number value 1 100000 n)
clamp_or value (inherited name) =
    if is_finite value then per_minute (clamp_number value 1 100000 1) else inherited name

module _ (number_of : String → Number) (is_inherited : String → Bool) where
  -- `asNumber`
  unfoldable pub as_number : Option Json → Option Number
  as_number (some (num n)) = some n
  as_number (some (str s)) = some (number_of s)
  as_number (some null) = none
  as_number (some (bool b)) = none
  as_number (some (arr xs)) = none
  as_number (some (obj fs)) = none
  as_number none = none

  -- `clampNumber(asNumber(value), 1, 100_000, fallback)`
  abbrev pub clamp_limit : Option Json → ℕ → ℕ
  clamp_limit value fallback = clamp_number (as_number value) 1 100000 fallback

  -- A write under `__proto__` sets no member.
  unfoldable pub normalise_entry :
      Assoc String Limit → String × Json → Assoc String Limit → Assoc String Limit
  unfolding member
  normalise_entry fallback (key, raw) result =
      let clean = trim key in
      if is_blank clean || clean == "__proto__"
      then result
      else put clean
          (clamp_or (as_number (some raw))
            (or_least (member is_inherited clean result) (member is_inherited clean fallback)))
          result

  unfoldable pub normalise_entries :
      Assoc String Limit → List (String × Json) → Assoc String Limit → Assoc String Limit
  normalise_entries fallback [] result = result
  normalise_entries fallback (e ∷ es) result =
      normalise_entries fallback es (normalise_entry fallback e result)

  -- `normaliseNumberRecord`, with its range 1 to 100_000
  unfoldable pub normalise_number_record : Option Json → Assoc String Limit → Assoc String Limit
  normalise_number_record value fallback =
      normalise_entries fallback (entries (as_record value)) fallback

  unfoldable pub override_of : Fields → Override
  override_of record_fields = record {
    limit = clamp_limit (get "limit" record_fields) 100;
    window_seconds = clamp_number (as_number (get "windowSeconds" record_fields)) 1 3600 60;
  }

  unfoldable pub normalise_scope : String → Json → Assoc String Override → Assoc String Override
  normalise_scope scope (obj fs) result =
      let clean = trim scope in if is_blank clean then result else put clean (override_of fs) result
  normalise_scope scope _ result = result

  unfoldable pub normalise_scopes :
      List (String × Json) → Assoc String Override → Assoc String Override
  normalise_scopes [] result = result
  normalise_scopes ((scope, raw) ∷ es) result =
      normalise_scopes es (normalise_scope scope raw result)

  unfoldable pub normalise_policy_control : Option Json → PolicyControl
  normalise_policy_control value =
      let source = as_record value in
      let emergency = as_record (get "emergency" source) in
      let institutions = as_record (get "institutionDefaultsPerMinute" source) in
      record {
        emergency_enabled = is_true (get "enabled" emergency);
        emergency_limit = clamp_limit (get "limitPerMinute" emergency) 60;
        product_defaults =
            normalise_number_record (get "productDefaultsPerMinute" source) default_products;
        sandbox = clamp_limit (get "sandbox" institutions) 500;
        production = clamp_limit (get "production" institutions) 2000;
        institution_overrides =
            normalise_number_record (get "institutionOverridesPerMinute" source) [];
        scope_overrides = normalise_scopes (entries (as_record (get "scopeOverrides" source))) [];
      }
