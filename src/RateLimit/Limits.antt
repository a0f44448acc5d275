-- ===== src/RateLimit/Limits.antt =====
-- `effectiveRequestPolicy`, `apiKeyLimitFromPolicy` and `applyEmergencyCap`: the limit that a check
-- is made with.
use acadid.Common.{
  ℕ, min, String, Option, none, some, Bool, true, false, string_Eq, ltb, coalesce, if◌then◌else◌,
}
use acadid.Common.Assoc.{Assoc, lookup}
use acadid.Common.Text.{is_blank}
use acadid.RateLimit.Policy.{Override, PolicyControl, Limit, per_minute, inherited, member}

-- The `@RateLimit` of a route.
pub record RoutePolicy : Type 0 where
  pub scope : String
  pub limit : ℕ
  pub window_seconds : Option ℕ

pub record Effective : Type 0 where
  pub scope : String
  pub limit : ℕ
  pub window_seconds : ℕ

unfoldable pub apply_emergency_cap : ℕ → PolicyControl → ℕ
apply_emergency_cap limit control =
    if control.emergency_enabled then min limit control.emergency_limit else limit

abbrev pub override_limit : Option Override → ℕ → ℕ
override_limit none d = d
override_limit (some o) d = o.limit

abbrev pub override_window : Option Override → ℕ → ℕ
override_window none d = d
override_window (some o) d = o.window_seconds

unfoldable pub effective_request_policy : PolicyControl → RoutePolicy → Effective
effective_request_policy control policy =
    let override = lookup policy.scope control.scope_overrides in
    record {
      scope = policy.scope;
      limit = apply_emergency_cap (override_limit override policy.limit) control;
      window_seconds = override_window override (coalesce policy.window_seconds 60);
    }

-- What the token of an API key says of its limit.
pub record KeyAuth : Type 0 where
  pub is_api_key : Bool
  pub api_key_id : Option String
  pub is_product : Bool
  pub product_code : Option String
  pub institution_uuid : Option String
  pub institution_id : Option String
  pub rate_limit_per_minute : Option ℕ

abbrev pub lookup_id : (String → Bool) → Option String → Assoc String Limit → Option Limit
lookup_id is_inherited none m = none
lookup_id is_inherited (some id) m = if is_blank id then none else member is_inherited id m

abbrev pub or_else_limit : Option Limit → Option Limit → Option Limit
or_else_limit none d = d
or_else_limit (some a) d = some a

-- A number that may be absent, as a limit.
abbrev pub number_limit : Option ℕ → Option Limit
number_limit none = none
number_limit (some n) = some (per_minute n)

abbrev pub has_text : Option String → Bool
has_text none = false
has_text (some s) = if is_blank s then false else true

-- The override unless it is 0, then the key's own limit, then the default.
abbrev pub institution_limit : Option Limit → KeyAuth → PolicyControl → Option Limit
institution_limit none auth control =
    some (per_minute (coalesce auth.rate_limit_per_minute control.sandbox))
institution_limit (some (inherited name)) auth control = some (inherited name)
institution_limit (some (per_minute n)) auth control =
    if ltb 0 n
    then some (per_minute n)
    else some (per_minute (coalesce auth.rate_limit_per_minute control.sandbox))

unfoldable pub api_key_limit_from_policy : (String → Bool) → KeyAuth → PolicyControl → Option Limit
unfolding member
api_key_limit_from_policy is_inherited auth control =
    if (if auth.is_product then has_text auth.product_code else false)
    then or_else_limit (lookup_id is_inherited auth.product_code control.product_defaults)
        (number_limit auth.rate_limit_per_minute)
    else institution_limit
        (or_else_limit (lookup_id is_inherited auth.institution_uuid control.institution_overrides)
          (lookup_id is_inherited auth.institution_id control.institution_overrides))
        auth control
