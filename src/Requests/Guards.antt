-- ===== src/Requests/Guards.antt =====
-- Tests, defaults and the opening steps that the handlers of record requests share
-- (apps/api/src/modules/gateway/governance/governance.service.ts).
use acadid.Common.{ℕ, String, Option, none, some, Bool, true, false, coalesce, string_Eq}
use acadid.Common.Assoc.{lookup}
use acadid.Common.Outcome.{Exception, Outcome, ok, throw, bad_request, ◌>>◌}
use acadid.Authority.{Auth}
use acadid.Requests.{
  Status, rejected, fulfilled, cancelled, PaymentStatus, paid, EscrowStatus, held, RecordRequest,
  World, assert_record_request_reviewer,
}

abbrev pub is_some {ℓ} : {A : Type ℓ} → Option A → Bool
is_some none = false
is_some (some a) = true

-- `a ?? b` of two optional values; also a field of `data` that may be undefined
abbrev pub or_else {ℓ} : {A : Type ℓ} → Option A → Option A → Option A
or_else none d = d
or_else (some a) d = some a

-- A number is falsy when it is absent or 0.
abbrev pub amount_of : Option ℕ → ℕ
amount_of a = coalesce a 0

abbrev pub is_closed : Status → Bool
is_closed rejected = true
is_closed cancelled = true
is_closed fulfilled = true
is_closed _ = false

abbrev pub is_paid : PaymentStatus → Bool
is_paid paid = true
is_paid _ = false

abbrev pub is_held : EscrowStatus → Bool
is_held held = true
is_held _ = false

abbrev pub not_found : Exception
not_found = bad_request "Record request not found."

-- The row and the reviewer's permission, as each handler begins.
unfoldable pub open_request : World → Auth → String → Outcome RecordRequest
open_request w auth id = elim (lookup id w.requests) [
  | none ↦ throw not_found
  | some existing ↦ do assert_record_request_reviewer w auth existing; ok existing
]

abbrev pub parsed_or {ℓ} : {A : Type ℓ} → Option A → Outcome A
parsed_or none = throw (bad_request "Validation failed.")
parsed_or (some a) = ok a

abbrev pub is_fulfilled_status : Status → Bool
is_fulfilled_status fulfilled = true
is_fulfilled_status _ = false
