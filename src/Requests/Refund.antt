-- ===== src/Requests/Refund.antt =====
-- `refundRecordRequestPayment` of apps/api/src/modules/gateway/governance/governance.service.ts.
-- A handler takes the outcome of the schema's `safeParse` (`none` where it fails), the clock, and
-- the fresh identifiers that it draws.
use acadid.Common.{
  ℕ, ltb, String, Option, none, some, List, [], ◌∷◌, ◌++◌, Bool, true, false, not, ◌&&◌, ◌||◌,
  coalesce, string_Eq, if◌then◌else◌,
}
use acadid.Common.Outcome.{Outcome, ok, bad_request, ◌>>=◌, ◌>>◌, refuse}
use acadid.Authority.{Auth}
use acadid.Requests.{
  Status, rejected, cancelled, refunded, EscrowStatus, held, released, refund_pending,
  escrow_refunded, note_refunded, note_refund_pending, refund_detail, RecordRequest, LedgerEntry,
  refund_entry, World, human_actor, save,
}
use acadid.Requests.Guards.{
  is_some, or_else, amount_of, is_paid, is_held, open_request, parsed_or, is_fulfilled_status,
}

pub data RefundAction : Type 0 where
  request confirm : RefundAction

pub record RefundInput : Type 0 where
  pub action : RefundAction
  pub reason : String
  pub amount_minor : Option ℕ
  pub refund_reference : Option String
  pub payment_provider : Option String
  pub refunded_at : Option ℕ
  pub note : Option String

abbrev pub is_confirm : RefundAction → Bool
is_confirm confirm = true
is_confirm request = false

abbrev pub is_released : EscrowStatus → Bool
is_released released = true
is_released _ = false

abbrev pub is_refundable : EscrowStatus → Bool
is_refundable held = true
is_refundable refund_pending = true
is_refundable _ = false

abbrev pub keeps_on_refund : Status → Bool
keeps_on_refund rejected = true
keeps_on_refund cancelled = true
keeps_on_refund _ = false

-- The guards of `refundRecordRequestPayment`, in order; the amount is the result.
unfoldable pub refund_amount : RefundInput → RecordRequest → Outcome ℕ
refund_amount input existing = do
  refuse
      (is_some existing.fulfilled_credential_id
        || (is_fulfilled_status existing.status || is_released existing.escrow_status))
      (bad_request
        "Fulfilled or released record requests require manual finance review before refund.")
  refuse (not (is_paid existing.payment_status))
      (bad_request "Only paid record requests can be refunded.")
  refuse (not (is_confirm input.action) && not (is_held existing.escrow_status))
      (bad_request "Only paid record requests held in escrow can enter refund review.")
  refuse (is_confirm input.action && not (is_refundable existing.escrow_status))
      (bad_request "Only paid record requests held or pending refund can be confirmed as refunded.")
  let amount = amount_of (or_else input.amount_minor existing.amount_minor)
  refuse (not (ltb 0 amount)) (bad_request "Refund amount is required.")
  refuse (ltb 0 (amount_of existing.amount_minor) && ltb (amount_of existing.amount_minor) amount)
      (bad_request "Refund amount cannot exceed the paid record request amount.")
  refuse (is_confirm input.action && not (is_some input.refund_reference))
      (bad_request "Refund reference is required when confirming a refund.")
  ok amount

unfoldable pub refunded_row : Auth → RefundInput → ℕ → ℕ → RecordRequest → RecordRequest
refunded_row auth input at amount existing =
    let confirmed = is_confirm input.action in
    record existing {
      status =
          if confirmed && not (keeps_on_refund existing.status) then cancelled else existing.status;
      payment_status = if confirmed then refunded else existing.payment_status;
      escrow_status = if confirmed then escrow_refunded else refund_pending;
      refund_requested_at = some (coalesce existing.refund_requested_at at);
      payment_provider = or_else input.payment_provider existing.payment_provider;
      rejection_reason =
          or_else existing.rejection_reason (if confirmed then some input.reason else none);
      resolution_note = if confirmed then some input.reason else existing.resolution_note;
      notes =
          existing.notes
          ++ (record {
            at = at;
            by = auth.sub;
            role = some auth.role;
            status = if confirmed then note_refunded else note_refund_pending;
            note = some (coalesce input.note input.reason);
            detail = refund_detail input.reason amount input.refund_reference;
          }
              ∷ []);
    }

unfoldable pub refund_entries : RefundInput → ℕ → ℕ → RecordRequest → List LedgerEntry
refund_entries input at amount existing =
    if is_confirm input.action
    then record {
      kind = refund_entry;
      source_id = existing.uuid;
      amount_minor = amount;
      currency = existing.currency;
      institution_id = existing.institution_id;
      credential_id = none;
      paid_at = at;
    }
      ∷ []
    else []

unfoldable pub refund_record_request_payment :
    Auth → String → Option RefundInput → ℕ → World → Outcome World
refund_record_request_payment auth id body now w = do
  input ← parsed_or body
  existing ← open_request w auth id
  amount ← refund_amount input existing
  let at = coalesce input.refunded_at now
  let saved = save w (human_actor auth) (refunded_row auth input at amount existing) (
      if is_confirm input.action
      then "record_request.payment_refunded"
      else "record_request.refund_requested")
  ok (record saved { ledger = w.ledger ++ refund_entries input at amount existing })
