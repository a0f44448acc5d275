-- ===== src/Requests/Confirm.antt =====
-- `confirmRecordRequestPayment` of apps/api/src/modules/gateway/governance/governance.service.ts.
-- A handler takes the outcome of the schema's `safeParse` (`none` where it fails), the clock, and
-- the fresh identifiers that it draws.
use acadid.Common.{ℕ, ltb, String, Option, some, [], ◌∷◌, ◌++◌, not, ◌&&◌, coalesce, string_Eq}
use acadid.Common.Outcome.{Outcome, ok, bad_request, ◌>>=◌, ◌>>◌, refuse}
use acadid.Authority.{Auth}
use acadid.Requests.{
  Status, submitted, awaiting_payment, paid, held, of_status, payment_detail, RecordRequest, World,
  human_actor, save,
}
use acadid.Requests.Guards.{or_else, amount_of, is_closed, open_request, parsed_or}

pub record ConfirmInput : Type 0 where
  pub payment_reference : String
  pub amount_minor : Option ℕ
  pub currency : String
  pub payment_provider : String
  pub paid_at : Option ℕ
  pub note : Option String

abbrev pub after_payment : Status → Status
after_payment awaiting_payment = submitted
after_payment status = status

unfoldable pub confirmed_row : Auth → ConfirmInput → ℕ → ℕ → RecordRequest → RecordRequest
confirmed_row auth input expected now existing =
    let paid_at = coalesce input.paid_at now in
    record existing {
      status = after_payment existing.status;
      payment_status = paid;
      escrow_status = held;
      payment_reference = some input.payment_reference;
      payment_provider = some input.payment_provider;
      amount_minor = some expected;
      currency = input.currency;
      payment_held_at = some paid_at;
      notes =
          existing.notes
          ++ (record {
            at = paid_at;
            by = auth.sub;
            role = some auth.role;
            status = of_status existing.status;
            note = some (coalesce input.note "Payment confirmed and held in escrow.");
            detail = payment_detail input.payment_reference;
          }
              ∷ []);
    }

-- The guards of `confirmRecordRequestPayment`, in order; the expected amount is the result.
unfoldable pub payable_amount : ConfirmInput → RecordRequest → Outcome ℕ
payable_amount input existing = do
  refuse (is_closed existing.status)
      (bad_request "Payment cannot be confirmed for a closed record request.")
  let expected = amount_of (or_else existing.amount_minor input.amount_minor)
  refuse (not (ltb 0 expected)) (bad_request "Record request does not have a payable amount.")
  refuse (ltb 0 (amount_of input.amount_minor) && ltb (amount_of input.amount_minor) expected)
      (bad_request "Confirmed payment amount is below the required record request amount.")
  ok expected

unfoldable pub confirm_record_request_payment :
    Auth → String → Option ConfirmInput → ℕ → World → Outcome World
confirm_record_request_payment auth id body now w = do
  input ← parsed_or body
  existing ← open_request w auth id
  expected ← payable_amount input existing
  ok (
      save w (human_actor auth) (confirmed_row auth input expected now existing)
        "record_request.payment_confirmed")
