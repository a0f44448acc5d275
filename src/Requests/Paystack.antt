-- ===== src/Requests/Paystack.antt =====
-- `processPaystackPaymentConfirmation` and `findRecordRequestForPayment` of
-- apps/api/src/modules/jobs/job-worker.service.ts. The job's payload is read through `asString`,
-- `asNumber` and `asDate`; `number_of` is the runtime's `Number(text)`.
use acadid.Common.{
  ℕ, zero, suc, ◌-◌, ltb, String, Option, none, some, [], ◌∷◌, ◌++◌, Bool, true, false, not, ◌&&◌,
  ◌||◌, ◌==◌, coalesce, string_Eq, if◌then◌else◌,
}
use acadid.Common.Assoc.{Assoc, lookup}
use acadid.Common.Number.{Number, Field, number, text, other, clamp_number}
use acadid.Common.Text.{trim, is_blank, to_upper, is_uuid}
use acadid.Common.Outcome.{
  Exception, Outcome, ok, throw, plain_error, non_retryable, ◌>>=◌, ◌>>◌, refuse,
}
use acadid.Requests.{paid, held, of_status, webhook_detail, RecordRequest, World, save}
use acadid.Requests.Guards.{or_else, is_closed, is_paid}
use acadid.Requests.Confirm.{after_payment}

pub record PaystackPayload : Type 0 where
  pub event : Option String
  pub reference : Option String
  pub status : Option String
  pub amount_minor : Field
  pub currency : Option String
  pub paid_at : Option ℕ  -- a text that is no date is read as absent
  pub record_request_id : Option String
  pub request_id : Option String

-- The `mode` of the job's result.
pub data Mode : Type 0 where
  ignored_paystack_event ignored_paystack_status already_confirmed
        record_request_payment_confirmed :
      Mode

-- `asString`
unfoldable pub as_string : Option String → Option String
unfolding trim
as_string none = none
as_string (some s) = let t = trim s in if is_blank t then none else some t

-- `asNumber`
unfoldable pub as_number : (String → Number) → Field → ℕ → ℕ → ℕ → ℕ
unfolding clamp_number
as_number number_of (number n) least most fallback = clamp_number (some n) least most fallback
as_number number_of (text s) least most fallback =
    clamp_number (some (number_of s)) least most fallback
as_number number_of other least most fallback = fallback

-- `Number.MAX_SAFE_INTEGER`
abbrev pub max_safe_integer : ℕ
max_safe_integer = 9007199254740991

abbrev pub text_eq : Option String → String → Bool
text_eq none b = false
text_eq (some a) b = a == b

-- `!a`
abbrev pub is_absent : Option String → Bool
is_absent none = true
is_absent (some a) = is_blank a

-- `findUnique({ where: { requestId } })`
unfoldable pub find_by_request_id : String → Assoc String RecordRequest → Option RecordRequest
find_by_request_id id [] = none
find_by_request_id id ((k, r) ∷ rows) =
    if r.request_id == id then some r else find_by_request_id id rows

abbrev pub has_reference : String → RecordRequest → Bool
has_reference reference r = text_eq r.payment_reference reference || r.request_id == reference

abbrev pub pick_from : ℕ → RecordRequest → Option RecordRequest → RecordRequest
pick_from zero r rest = r
pick_from (suc pick) r none = r
pick_from (suc pick) r (some q) = q

-- `findFirst({ where: { OR: [{ paymentReference }, { requestId }] } })`. The query has no order, so
-- the database answers with any of the rows that match: `pick` tells how many of them it passes
-- over.
unfoldable pub find_by_reference : ℕ → String → Assoc String RecordRequest → Option RecordRequest
find_by_reference pick reference [] = none
find_by_reference pick reference ((k, r) ∷ rows) =
    if has_reference reference r
    then some (pick_from pick r (find_by_reference (pick - 1) reference rows))
    else find_by_reference pick reference rows

abbrev pub by_request_id : Option String → Assoc String RecordRequest → Option RecordRequest
by_request_id none rows = none
by_request_id (some id) rows = find_by_request_id id rows

abbrev pub by_uuid : Option String → Assoc String RecordRequest → Option RecordRequest
by_uuid none rows = none
by_uuid (some id) rows = if is_uuid id then lookup id rows else none

unfoldable pub find_record_request_for_payment :
    ℕ → Option String → Option String → String → Assoc String RecordRequest → Option RecordRequest
find_record_request_for_payment pick record_request_id request_id reference rows =
    or_else (by_uuid record_request_id rows)
      (or_else (by_request_id request_id rows) (find_by_reference pick reference rows))

unfoldable pub paystack_row : String → ℕ → ℕ → String → String → RecordRequest → RecordRequest
paystack_row reference expected paid_at currency job_id request = record request {
  status = after_payment request.status;
  payment_status = paid;
  escrow_status = held;
  payment_reference = some reference;
  payment_provider = some "PAYSTACK";
  amount_minor = some expected;
  currency = currency;
  payment_held_at = some paid_at;
  notes =
      request.notes
      ++ (record {
        at = paid_at;
        by = "paystack-webhook";
        role = none;
        status = of_status request.status;
        note = some "Payment confirmed by signed Paystack webhook and held in escrow.";
        detail = webhook_detail reference job_id;
      }
          ∷ []);
}

-- What follows once the row is found.
unfoldable pub settle_payment :
    String → ℕ → String → ℕ → String → World → RecordRequest → Outcome (Mode × World)
settle_payment reference amount currency paid_at job_id w request = do
  refuse (is_closed request.status)
      (non_retryable "Payment cannot be confirmed for closed record request.")
  if is_paid request.payment_status
      then (if text_eq request.payment_reference reference || is_absent request.payment_reference
          then ok (already_confirmed, w)
          else throw (non_retryable "Record request is already paid with another reference."))
      else (do
        let expected = coalesce request.amount_minor amount
        refuse (not (ltb 0 expected))
            (non_retryable "Record request does not have a payable amount.")
        refuse (ltb amount expected)
            (non_retryable "Paystack payment is below the required amount.")
        refuse (not (is_blank request.currency) && not (to_upper request.currency == currency))
            (non_retryable "Paystack payment currency does not match record request.")
        ok (
          record_request_payment_confirmed,
          save w none (paystack_row reference expected paid_at currency job_id request)
              "record_request.payment_confirmed",
        ))

abbrev pub found_or {ℓ} : {A : Type ℓ} → Option A → Exception → Outcome A
found_or none e = throw e
found_or (some a) e = ok a

unfoldable pub positive_amount : ℕ → Outcome (Unit {0})
positive_amount amount =
    refuse (not (ltb 0 amount))
      (non_retryable "Paystack payment confirmation requires a positive amount.")

abbrev pub not_success : Option String → Bool
not_success none = false
not_success (some status) = not (status == "success")

-- What the checks of the payload alone make of it.
pub data Screened : Type 0 where
  other_event other_status : Screened
  charge : (reference : String) → (amount_minor : ℕ) → (currency : String) → Screened

unfoldable pub screen : (String → Number) → PaystackPayload → Outcome Screened
screen number_of payload =
    let amount = as_number number_of payload.amount_minor 1 max_safe_integer 0 in
    let currency = to_upper (coalesce (as_string payload.currency) "NGN") in
    if not (text_eq (as_string payload.event) "charge.success")
    then ok other_event
    else if not_success (as_string payload.status)
    then ok other_status
    else (do
      reference ←
          found_or (as_string payload.reference)
            (non_retryable "Paystack payment confirmation requires a transaction reference.")
      positive_amount amount
      ok (charge reference amount currency))

abbrev pub find_request : ℕ → PaystackPayload → String → World → Option RecordRequest
find_request pick payload reference w =
    find_record_request_for_payment pick (as_string payload.record_request_id)
      (as_string payload.request_id) reference w.requests

unfoldable pub settle_screened :
    ℕ → PaystackPayload → String → ℕ → World → Screened → Outcome (Mode × World)
settle_screened pick payload job_id now w other_event = ok (ignored_paystack_event, w)
settle_screened pick payload job_id now w other_status = ok (ignored_paystack_status, w)
settle_screened pick payload job_id now w (charge reference amount currency) = do
  request ←
      found_or (find_request pick payload reference w)
        (plain_error "Record request for Paystack reference was not found.")
  settle_payment reference amount currency (coalesce payload.paid_at now) job_id w request

unfoldable pub process_paystack_payment_confirmation :
    (String → Number) → ℕ → PaystackPayload → String → ℕ → World → Outcome (Mode × World)
process_paystack_payment_confirmation number_of pick payload job_id now w = do
  screened ← screen number_of payload
  settle_screened pick payload job_id now w screened
