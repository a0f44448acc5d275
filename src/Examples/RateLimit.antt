-- ===== src/Examples/RateLimit.antt =====
-- Requests counted in a window of a minute, with a stored policy (rate-limit.service.ts).
use acadid.Common.{
  Bool, string_Eq, ℕ, ◌+◌, ◌≤◌, ◌<◌, min, String, Option, none, some, List, [], ◌∷◌, true, ◌≡◌,
  refl, arith, if◌then◌else◌,
}
use acadid.Common.Assoc.{lookup, put, remove}
use acadid.Common.Text.{trim, trim_start, trim_end, is_space}
use acadid.Common.Number.{Number, nan, ratio, clamp_number}
use acadid.Common.Json.{Json, null, bool, num, str, obj, end, field}
use acadid.RateLimit.Window.{
  CheckInput, BucketKey, bucket_key_Eq, Buckets, bucket_key, next_bucket, verdict, assert_allowed,
  too_many,
}
use acadid.RateLimit.Admission.{Check, admitted, checks_of, count_in, admitted-eq}
use acadid.RateLimit.Cleanup.{cleanup_expired_buckets, verdict-cleanup, too_many_bounds}
use acadid.RateLimit.Policy.{
  inherited, member, as_number, normalise_entry, normalise_entries, normalise_number_record,
  normalise_policy_control,
}
use acadid.RateLimit.Limits.{RoutePolicy, effective_request_policy}
use acadid.RateLimit.Range.{
  IsInRange, normalise_policy_control-IsInRange, effective_request_policy_bounds,
}

abbrev no_hash : String → String
no_hash key = key

abbrev no_number : String → Number
no_number s = nan

abbrev is_member : String → Bool
is_member name = string_Eq.beq name "constructor"

abbrev login : CheckInput
login = record { scope = "auth.login"; key = "ip:1"; limit = 2; window_seconds = some 60 }

abbrev at : ℕ → Check
at now = record { input = login; now = now; later = now }

abbrev login_key : BucketKey
login_key = record { scope = "auth.login"; bucket_key_hash = "ip:1"; window_start = 60000 }

abbrev attempts : List Check
attempts = at 60000 ∷ at 60500 ∷ at 61000 ∷ at 119999 ∷ []

admitted-eq_example :
    admitted no_hash login_key [] attempts + min (count_in (lookup login_key [])) 2
    ≡ min (count_in (lookup login_key []) + checks_of no_hash login_key attempts) 2
admitted-eq_example =
    admitted-eq no_hash login_key 2 [] attempts
      ((λ h. refl), ((λ h. refl), ((λ h. refl), ((λ h. refl), tt))))

abbrev after_two : Buckets
unfolding assert_allowed bucket_key
after_two =
    (assert_allowed no_hash login 60500 60500 (assert_allowed no_hash login 60000 60000 []).0).0

verdict-cleanup_example :
    (assert_allowed no_hash login 61000 61000 (cleanup_expired_buckets none 60700 after_two)).1
    ≡ (assert_allowed no_hash login 61000 61000 after_two).1
verdict-cleanup_example =
    verdict-cleanup no_hash none 60700 61000 61000 login after_two (omega arith) (omega arith)
      (omega arith)

third_refused :
    (assert_allowed no_hash login 61000 61000 after_two).1 ≡ too_many "auth.login" 2 59 120000
unfolding assert_allowed bucket_key next_bucket verdict lookup put
third_refused = refl

too_many_bounds_example : (1 ≤ 59) × (59 ≤ 60) × (61000 < 120000)
too_many_bounds_example =
    too_many_bounds no_hash login 61000 61000 after_two (omega arith) (omega arith) third_refused

abbrev stored : Option Json
stored = some (
    obj (
      field "emergency"
        (obj (field "enabled" (bool true) (field "limitPerMinute" (num (ratio 0 0)) end)))
        (field "scopeOverrides"
          (obj (
            field "auth.login"
              (obj (field "limit" (num (ratio 5 0)) (field "windowSeconds" (str "x") end))) end))
          end)))

-- A stored limit that is null, under a name that every object inherits, is kept as no number.
kept_constructor :
    lookup "constructor" (
      normalise_number_record no_number is_member
        (some (obj (field "constructor" null (field "exam" (num (ratio 7 0)) end))))
        [])
    ≡ some (inherited "constructor")
unfolding normalise_number_record normalise_entries normalise_entry member as_number clamp_number
    lookup put remove trim trim_start trim_end is_space
kept_constructor = refl

abbrev login_policy : RoutePolicy
login_policy = record { scope = "auth.login"; limit = 10; window_seconds = none }

normalise_policy_control-IsInRange_example :
    IsInRange is_member (normalise_policy_control no_number is_member stored)
normalise_policy_control-IsInRange_example =
    normalise_policy_control-IsInRange no_number is_member stored

effective_request_policy_bounds_example :
    let control = normalise_policy_control no_number is_member stored in
    let e = effective_request_policy control login_policy in
    (1 ≤ e.limit)
    × (1 ≤ e.window_seconds)
    × (e.window_seconds ≤ 3600)
    × (e.limit ≤ (if control.emergency_enabled then control.emergency_limit else e.limit))
effective_request_policy_bounds_example =
    effective_request_policy_bounds no_number is_member stored login_policy (omega arith)
      (omega arith) (omega arith)
