-- ===== src/Requests/History.antt =====
-- What holds of a record request over every sequence of operations.
use acadid.Common.{String, List, [], ◌∷◌, ◌≡◌, refl, ◌⊎◌, inl, inr, string_Eq}
use acadid.Common.Number.{Number}
use acadid.Common.Outcome.{Outcome, ok, throw}
use acadid.Requests.{World}
use acadid.Requests.Review.{review_record_request}
use acadid.Requests.Confirm.{confirm_record_request_payment}
use acadid.Requests.Refund.{refund_record_request_payment}
use acadid.Requests.Fulfill.{fulfill_record_request}
use acadid.Requests.Paystack.{Mode, process_paystack_payment_confirmation}
use acadid.Requests.Operations.{
  Operation, review, confirm, refund, fulfill, paystack, after, after_job, perform, perform_all,
}
use acadid.Requests.Steps.{
  Step, review-Step, confirm-Step, refund-Step, fulfill-Step, paystack-Step,
}
use acadid.Requests.Ledger.{IsSound}
use acadid.Requests.Changes.{Step-IsSound}

after_cases :
    (o : Outcome World) (w : World)
    → ((w' : World) → o ≡ ok w' → Step w w')
    → Step w (after o w) ⊎ (after o w ≡ w)
after_cases (ok w') w step = inl (step w' refl)
after_cases (throw e) w step = inr refl

module _ (number_of : String → Number) where
  perform_cases :
      (op : Operation) (w : World) → Step w (perform number_of op w) ⊎ (perform number_of op w ≡ w)
  unfolding perform
  perform_cases (review auth id body now) w =
      after_cases (review_record_request auth id body now w) w
        (λ w' h. review-Step auth id body now w h)
  perform_cases (confirm auth id body now) w =
      after_cases (confirm_record_request_payment auth id body now w) w
        (λ w' h. confirm-Step auth id body now w h)
  perform_cases (refund auth id body now) w =
      after_cases (refund_record_request_payment auth id body now w) w
        (λ w' h. refund-Step auth id body now w h)
  perform_cases (fulfill auth id body fresh now) w =
      after_cases (fulfill_record_request auth id body fresh now w) w
        (λ w' h. fulfill-Step auth id body fresh now w h)
  perform_cases (paystack pick payload job_id now) w = job_cases _ refl
    where
      job_cases :
          (o : Outcome (Mode × World))
          → process_paystack_payment_confirmation number_of pick payload job_id now w ≡ o
          → Step w (after_job o w) ⊎ (after_job o w ≡ w)
      job_cases (ok (mode, w')) e = paystack-Step number_of pick payload job_id now w e
      job_cases (throw x) e = inr refl

  -- A property that every step keeps holds after any sequence of operations.
  pub perform_all_induction :
      (P : World → Type 0)
      → ((w w' : World) → Step w w' → P w → P w')
      → (ops : List Operation) (w : World) → P w
      → P (perform_all number_of ops w)
  unfolding perform_all
  perform_all_induction P keep [] w h = h
  perform_all_induction P keep (op ∷ ops) w h =
      perform_all_induction P keep ops (perform number_of op w)
        (elim (perform_cases op w) [ inl step ↦ keep w _ step h | inr same ↦ rw same h ])

  -- Over any operations, refused or not, from a sound database: a request has one credential
  -- exactly when it names one and none otherwise, and its payment is released at most once, and
  -- only for a request that names a credential.
  pub perform_all-IsSound :
      (ops : List Operation) (w : World) → IsSound w → IsSound (perform_all number_of ops w)
  perform_all-IsSound = perform_all_induction IsSound (λ w w' step h. Step-IsSound step h)
