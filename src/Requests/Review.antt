-- ===== src/Requests/Review.antt =====
-- `reviewRecordRequest` of apps/api/src/modules/gateway/governance/governance.service.ts.
-- A handler takes the outcome of the schema's `safeParse` (`none` where it fails), the clock, and
-- the fresh identifiers that it draws.
use acadid.Common.{
  ℕ, String, Option, some, [], ◌∷◌, ◌++◌, Bool, true, false, string_Eq, if◌then◌else◌,
}
use acadid.Common.Outcome.{Outcome, ok, bad_request, ◌>>=◌, ◌>>◌, refuse}
use acadid.Authority.{Auth}
use acadid.Requests.{
  Status, rejected, escalated, of_status, no_detail, RecordRequest, World, human_actor, save,
}
use acadid.Requests.Guards.{is_some, or_else, open_request, parsed_or, is_fulfilled_status}

pub record ReviewInput : Type 0 where
  pub status : Status
  pub note : Option String
  pub assigned_to_id : Option String
  pub rejection_reason : Option String
  pub escalation_reason : Option String

abbrev pub is_rejected : Status → Bool
is_rejected rejected = true
is_rejected _ = false

abbrev pub is_escalated : Status → Bool
is_escalated escalated = true
is_escalated _ = false

unfoldable pub reviewed_row : Auth → ReviewInput → ℕ → RecordRequest → RecordRequest
reviewed_row auth input now existing = record existing {
  status = input.status;
  notes =
      existing.notes
      ++ (record {
        at = now;
        by = auth.sub;
        role = some auth.role;
        status = of_status input.status;
        note = input.note;
        detail = no_detail;
      }
          ∷ []);
  assigned_to_id = or_else input.assigned_to_id existing.assigned_to_id;
  assigned_at = if is_some input.assigned_to_id then some now else existing.assigned_at;
  rejection_reason =
      if is_rejected input.status
      then or_else (or_else input.rejection_reason input.note) existing.rejection_reason
      else existing.rejection_reason;
  rejected_at = if is_rejected input.status then some now else existing.rejected_at;
  escalation_reason =
      if is_escalated input.status
      then or_else (or_else input.escalation_reason input.note) existing.escalation_reason
      else existing.escalation_reason;
  escalated_at = if is_escalated input.status then some now else existing.escalated_at;
}

-- A review does not fulfil.
unfoldable pub reviewable : ReviewInput → Outcome (Unit {0})
reviewable input = refuse (is_fulfilled_status input.status) (
    bad_request
      "Use the record request fulfillment endpoint to publish a credential and release payment.")

unfoldable pub review_record_request :
    Auth → String → Option ReviewInput → ℕ → World → Outcome World
review_record_request auth id body now w = do
  input ← parsed_or body
  existing ← open_request w auth id
  reviewable input
  ok (save w (human_actor auth) (reviewed_row auth input now existing) "record_request.review")
