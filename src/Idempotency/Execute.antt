-- ===== src/Idempotency/Execute.antt =====
-- `execute`. The handler changes a state of its own, and returns a response or throws.
use acadid.Common.{
  ℕ, nat_eq, String, Bool, true, false, not, ◌==◌, string_Eq, if_some, if◌then◌else◌,
}
use acadid.Common.Assoc.{lookup}
use acadid.Common.Number.{nan, infinite, negative, ratio}
use acadid.Common.Text.{is_blank}
use acadid.Common.Json.{Json, null, bool, num, str, arr, obj}
use acadid.Common.Outcome.{Outcome, ok, throw, bad_request, conflict}
use acadid.Idempotency.Records.{
  RecordKey, record_key_Eq, RecordStatus, in_progress, Record, Records, IdempotencyInput,
  normalise_key, create_record, end_record,
}

-- What a JSON value counts as in a condition.
abbrev pub is_truthy : Json → Bool
is_truthy null = false
is_truthy (bool b) = b
is_truthy (num nan) = false
is_truthy (num infinite) = true
is_truthy (num negative) = true
is_truthy (num (ratio n d)) = not (nat_eq n 0)
is_truthy (str s) = not (is_blank s)
is_truthy (arr xs) = true
is_truthy (obj fs) = true

abbrev pub is_in_progress : RecordStatus → Bool
is_in_progress in_progress = true
is_in_progress _ = false

-- Where no response is recorded that counts.
unfoldable pub without_response : RecordStatus → Outcome Json
without_response status =
    if is_in_progress status
    then throw (conflict "An idempotent request with this key is still processing.")
    else throw (
        conflict
          "An idempotent request with this key previously failed. Use a new key after resolving the error.")

unfoldable pub answer : Record → String → Outcome Json
answer existing request_hash =
    if existing.request_hash == request_hash
    then if_some existing.response (without_response existing.status)
        (λ response. if is_truthy response then ok response else without_response existing.status)
    else throw (bad_request "Idempotency key was already used with a different request payload.")

-- What the caller does: it changes a state of its own, and returns a response or throws.
abbrev pub Handler {ℓ} : Type ℓ → Type ℓ
Handler S = S → Outcome Json × S

abbrev pub key_of : (String → String) → IdempotencyInput → String → RecordKey
key_of hash input key = record { scope = input.scope; key_hash = hash key }

-- What the update at the end makes of the answer.
unfoldable pub after_end {ℓ} :
    {S : Type ℓ} → Outcome Json → Outcome Records → Records → S → Outcome Json × Records × S
after_end result (ok ended) records s = (result, ended, s)
after_end result (throw e) records s = (throw e, records, s)

module _ {ℓ} {S : Type ℓ} (hash : String → String) where
  unfoldable pub run_handler :
      IdempotencyInput
      → RecordKey
      → Handler S
      → Outcome Records
      → Records
      → S
      → Outcome Json × Records × S
  run_handler input k handler (throw e) records s = (throw e, records, s)
  run_handler input k handler (ok created) records s =
      let (result, s') = handler s in
      after_end result (end_record input k result created) created s'

  unfoldable pub execute_key :
      IdempotencyInput → ℕ → Handler S → Outcome String → Records → S → Outcome Json × Records × S
  execute_key input now handler (throw e) records s = (throw e, records, s)
  execute_key input now handler (ok key) records s =
      let k = key_of hash input key in
      if_some (lookup k records)
        (run_handler input k handler (create_record input k (hash input.request) now records)
          records s)
        (λ existing. (answer existing (hash input.request), records, s))

  unfoldable pub execute :
      IdempotencyInput → ℕ → Handler S → Records → S → Outcome Json × Records × S
  execute input now handler records s =
      execute_key input now handler (normalise_key input.key) records s
