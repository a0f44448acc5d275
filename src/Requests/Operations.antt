-- ===== src/Requests/Operations.antt =====
-- Every way in which the services change a record request, as operations on the world: a handler
-- that throws leaves the database as it was.
use acadid.Common.{ℕ, String, Option, List, [], ◌∷◌}
use acadid.Common.Number.{Number}
use acadid.Common.Outcome.{Outcome, ok, throw}
use acadid.Authority.{Auth}
use acadid.Requests.{World}
use acadid.Requests.Review.{ReviewInput, review_record_request}
use acadid.Requests.Confirm.{ConfirmInput, confirm_record_request_payment}
use acadid.Requests.Refund.{RefundInput, refund_record_request_payment}
use acadid.Requests.Fulfill.{FulfillInput, Fresh, fulfill_record_request}
use acadid.Requests.Paystack.{PaystackPayload, Mode, process_paystack_payment_confirmation}

pub data Operation : Type 0 where
  review : Auth → String → Option ReviewInput → ℕ → Operation
  confirm : Auth → String → Option ConfirmInput → ℕ → Operation
  refund : Auth → String → Option RefundInput → ℕ → Operation
  fulfill : Auth → String → Option FulfillInput → Fresh → ℕ → Operation
  paystack : (pick : ℕ) → PaystackPayload → String → ℕ → Operation

abbrev pub after : Outcome World → World → World
after (ok w') w = w'
after (throw e) w = w

abbrev pub after_job : Outcome (Mode × World) → World → World
after_job (ok (mode, w')) w = w'
after_job (throw e) w = w

module _ (number_of : String → Number) where
  unfoldable pub perform : Operation → World → World
  perform (review auth id body now) w = after (review_record_request auth id body now w) w
  perform (confirm auth id body now) w = after (confirm_record_request_payment auth id body now w) w
  perform (refund auth id body now) w = after (refund_record_request_payment auth id body now w) w
  perform (fulfill auth id body fresh now) w =
      after (fulfill_record_request auth id body fresh now w) w
  perform (paystack pick payload job_id now) w =
      after_job (process_paystack_payment_confirmation number_of pick payload job_id now w) w

  unfoldable pub perform_all : List Operation → World → World
  perform_all [] w = w
  perform_all (op ∷ ops) w = perform_all ops (perform op w)
