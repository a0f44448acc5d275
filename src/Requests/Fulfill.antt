-- ===== src/Requests/Fulfill.antt =====
-- `fulfillRecordRequest` of apps/api/src/modules/gateway/governance/governance.service.ts.
-- A handler takes the outcome of the schema's `safeParse` (`none` where it fails), the clock, and
-- the fresh identifiers that it draws.
use acadid.Common.{
  ℕ, ltb, String, Option, none, some, List, [], ◌∷◌, ◌++◌, Bool, true, false, not, ◌&&◌, coalesce,
  string_Eq, if◌then◌else◌,
}
use acadid.Common.Outcome.{Outcome, ok, throw, bad_request, ◌>>=◌, ◌>>◌, refuse}
use acadid.Authority.{Auth}
use acadid.Requests.{
  fulfilled, PaymentStatus, not_required, paid, waived, released, of_status, credential_detail,
  RecordRequest, LedgerEntry, release_entry, Credential, World, human_actor, save,
}
use acadid.Requests.Guards.{is_some, or_else, amount_of, is_paid, is_held, open_request, parsed_or}

pub record FulfillInput : Type 0 where
  pub note : Option String
  pub release_payment : Bool

-- What the handler draws: `randomUUID()` and the identifier of the row that it creates.
pub record Fresh : Type 0 where
  pub credential_ref : String
  pub credential_id : String

abbrev pub is_settled : PaymentStatus → Bool
is_settled paid = true
is_settled waived = true
is_settled not_required = true
is_settled _ = false

abbrev pub or_bad_request {ℓ} : {A : Type ℓ} → Option A → String → Outcome A
or_bad_request none message = throw (bad_request message)
or_bad_request (some a) message = ok a

-- The guards of `fulfillRecordRequest`, in order; the learner and the institution are the result.
unfoldable pub fulfillable : RecordRequest → Outcome (String × String)
fulfillable r = do
  learner ←
      or_bad_request r.learner_id "Record request must be linked to a learner before fulfillment."
  institution ←
      or_bad_request r.institution_id
        "Record request must be assigned to an active institution before fulfillment."
  refuse (is_some r.fulfilled_credential_id)
      (bad_request "Record request has already been fulfilled.")
  refuse (ltb 0 (amount_of r.amount_minor) && not (is_settled r.payment_status)) (
      bad_request
        "Record request payment must be paid, waived, or not required before fulfillment.")
  refuse (is_paid r.payment_status && not (is_held r.escrow_status))
      (bad_request "Paid record request funds must be held in escrow before fulfillment.")
  ok (learner, institution)

abbrev pub releases : FulfillInput → RecordRequest → Bool
releases input r = input.release_payment && is_paid r.payment_status

unfoldable pub fulfilled_row : Auth → FulfillInput → Fresh → ℕ → RecordRequest → RecordRequest
fulfilled_row auth input fresh now r = record r {
  status = fulfilled;
  fulfilled_at = some now;
  fulfilled_credential_id = some fresh.credential_id;
  resolution_note = or_else input.note r.resolution_note;
  escrow_status = if releases input r then released else r.escrow_status;
  payment_released_at = if releases input r then some now else r.payment_released_at;
  notes =
      r.notes
      ++ (record {
        at = now;
        by = auth.sub;
        role = some auth.role;
        status = of_status fulfilled;
        note = some (
            coalesce input.note
              "Record request fulfilled and credential published to learner passport.");
        detail = credential_detail fresh.credential_ref;
      }
          ∷ []);
}

unfoldable pub release_entries : FulfillInput → Fresh → ℕ → RecordRequest → List LedgerEntry
release_entries input fresh now r =
    if releases input r && ltb 0 (amount_of r.amount_minor)
    then record {
      kind = release_entry;
      source_id = r.uuid;
      amount_minor = amount_of r.amount_minor;
      currency = r.currency;
      institution_id = r.institution_id;
      credential_id = some fresh.credential_id;
      paid_at = now;
    }
      ∷ []
    else []

unfoldable pub credential_of : Fresh → String × String → RecordRequest → Credential
credential_of fresh (learner, institution) r = record {
  uuid = fresh.credential_id;
  credential_ref = fresh.credential_ref;
  learner_id = learner;
  institution_id = institution;
  record_request_id = r.uuid;
}

unfoldable pub fulfill_record_request :
    Auth → String → Option FulfillInput → Fresh → ℕ → World → Outcome World
fulfill_record_request auth id body fresh now w = do
  input ← parsed_or body
  r ← open_request w auth id
  parties ← fulfillable r
  let saved =
      save w (human_actor auth) (fulfilled_row auth input fresh now r) "record_request.fulfill"
  ok (record saved {
    credentials = w.credentials ++ (credential_of fresh parties r ∷ []);
    ledger = w.ledger ++ release_entries input fresh now r;
  })
