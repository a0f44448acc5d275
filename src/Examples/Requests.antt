-- ===== src/Examples/Requests.antt =====
-- A record request that is paid, fulfilled and paid again (governance.service.ts and
-- job-worker.service.ts).
use acadid.Common.{
  String, ◌∙◌, none, some, List, [], ◌∷◌, true, ◌≡◌, refl, ◌==◌, string_Eq, arith, Bool-cases,
  some-eq-some, sym, map, inl, inr, coalesce,
}
use acadid.Common.Assoc.{lookup, put, single-IsTable}
use acadid.Common.Text.{trim, to_upper}
use acadid.Common.Number.{Number, nan, ratio, number}
use acadid.Common.Outcome.{ok}
use acadid.Authority.{Auth, user, acadid_super_admin, assert_actor_can_operate_institution}
use acadid.Requests.{
  awaiting_payment, assigned, pending, none_held, RecordRequest, World, save,
  assert_record_request_reviewer,
}
use acadid.Requests.Guards.{open_request}
use acadid.Requests.Review.{review_record_request, ReviewInput}
use acadid.Requests.Confirm.{confirm_record_request_payment, ConfirmInput}
use acadid.Requests.Refund.{confirm}
use acadid.Requests.Fulfill.{
  fulfill_record_request, fulfillable, fulfilled_row, release_entries, credential_of,
}
use acadid.Requests.Paystack.{
  PaystackPayload, screen, as_string, as_number, settle_screened, settle_payment, positive_amount,
  paystack_row, find_record_request_for_payment, find_by_request_id, find_by_reference,
  process_paystack_payment_confirmation, record_request_payment_confirmed, already_confirmed,
}
use acadid.Requests.Operations
use acadid.Requests.Operations.{Operation, perform, perform_all}
use acadid.Requests.Ledger.{IsSound}
use acadid.Requests.History.{perform_all-IsSound}
use acadid.Requests.Steps.{Stored}
use acadid.Requests.Settled.{Settled, perform_all-Settled, Stuck, perform_all-Stuck, entries_of}
use acadid.Requests.Replay.{IsAlone, paystack-paystack}
use acadid.Requests.Reopened.{reopened_payment-Stuck}

abbrev founder : Auth
founder = record {
  sub = "founder";
  role = acadid_super_admin;
  kind = user;
  institution_uuid = none;
  institution_user_id = none;
  api_key_id = none;
}

abbrev new_row : RecordRequest
new_row = record {
  uuid = "r1";
  request_id = "RR-1";
  learner_id = some "l1";
  institution_id = some "i1";
  status = awaiting_payment;
  payment_status = pending;
  escrow_status = none_held;
  payment_reference = none;
  payment_provider = none;
  amount_minor = some 500;
  currency = "NGN";
  payment_held_at = none;
  payment_released_at = none;
  refund_requested_at = none;
  assigned_to_id = none;
  fulfilled_credential_id = none;
  rejection_reason = none;
  escalation_reason = none;
  resolution_note = none;
  notes = [];
  assigned_at = none;
  fulfilled_at = none;
  rejected_at = none;
  escalated_at = none;
}

abbrev world_of : RecordRequest → World
world_of r = record {
  requests = (r.uuid, r) ∷ [];
  credentials = [];
  ledger = [];
  audit = [];
  users = [];
}

abbrev start : World
start = world_of new_row

only_row : (id : String) (q : RecordRequest) → Stored start id q → ("r1" ≡ id) × (q ≡ new_row)
unfolding lookup
only_row id q h = elim (Bool-cases ("r1" == id)) [
  | inl same ↦ ((string_Eq.beq_iff "r1" id).0 same, some-eq-some (sym (rw same at h)))
  | inr other ↦ cc (rw other at h)
]

start-IsSound : IsSound start
start-IsSound = record {
  table = single-IsTable "r1" new_row;
  keyed = λ id q h. let (at, e) = only_row id q h in rw e at;
  one_credential = λ id q h. rw (only_row id q h).1;
  one_release = λ id q h. rw (only_row id q h).1 (omega arith);
}

abbrev no_number : String → Number
no_number s = nan

abbrev payload : PaystackPayload
payload = record {
  event = some "charge.success";
  reference = some " ref-1 ";
  status = some "success";
  amount_minor = number (ratio 500 0);
  currency = some "ngn";
  paid_at = none;
  record_request_id = none;
  request_id = some "RR-1";
}

abbrev history : List Operation
history =
    Operations.paystack 0 payload "job-1" 10
    ∷ Operations.fulfill founder "r1" (some (record { note = none; release_payment = true }))
        (record { credential_ref = "c-ref"; credential_id = "c1" }) 20
    ∷ Operations.paystack 0 payload "job-2" 30
    ∷ []

perform_all-IsSound_example : IsSound (perform_all no_number history start)
perform_all-IsSound_example = perform_all-IsSound no_number history start start-IsSound

abbrev done : World
done = perform_all no_number history start

done-IsSound : IsSound done
done-IsSound = perform_all-IsSound no_number history start start-IsSound

abbrev row_of : World → RecordRequest
row_of w = coalesce (lookup "r1" w.requests) new_row

-- The payment of 500 is released once, to the request's only credential.
done_ledger : map (λ e. e.amount_minor) done.ledger ≡ 500 ∷ []
unfolding perform_all perform process_paystack_payment_confirmation screen as_string as_number
    settle_screened settle_payment positive_amount paystack_row find_record_request_for_payment
    find_by_request_id find_by_reference save lookup put to_upper trim open_request
    assert_record_request_reviewer assert_actor_can_operate_institution fulfill_record_request
    fulfillable fulfilled_row release_entries credential_of
done_ledger = refl

done_here : Stored done "r1" (row_of done)
unfolding perform_all perform process_paystack_payment_confirmation screen as_string as_number
    settle_screened settle_payment positive_amount paystack_row find_record_request_for_payment
    find_by_request_id find_by_reference save lookup put to_upper trim open_request
    assert_record_request_reviewer assert_actor_can_operate_institution fulfill_record_request
    fulfillable fulfilled_row release_entries credential_of
done_here = refl

done_names : (row_of done).fulfilled_credential_id ≡ some "c1"
unfolding perform_all perform process_paystack_payment_confirmation screen as_string as_number
    settle_screened settle_payment positive_amount paystack_row find_record_request_for_payment
    find_by_request_id find_by_reference save lookup put to_upper trim open_request
    assert_record_request_reviewer assert_actor_can_operate_institution fulfill_record_request
    fulfillable fulfilled_row release_entries credential_of
done_names = refl

done_admin_amount : (row_of done).amount_minor ≡ some 500
unfolding perform_all perform process_paystack_payment_confirmation screen as_string as_number
    settle_screened settle_payment positive_amount paystack_row find_record_request_for_payment
    find_by_request_id find_by_reference save lookup put to_upper trim open_request
    assert_record_request_reviewer assert_actor_can_operate_institution fulfill_record_request
    fulfillable fulfilled_row release_entries credential_of
done_admin_amount = refl

done-Settled : Settled "r1" "c1" (entries_of "r1" done) done
done-Settled = record {
  sound = done-IsSound;
  row = row_of done;
  here = done_here;
  names = done_names;
  history = refl;
}

abbrev refund_try : Operation
refund_try =
    Operations.refund founder "r1"
      (some (record {
        action = confirm;
        reason = "by mistake";
        amount_minor = none;
        refund_reference = some "rf-1";
        payment_provider = none;
        refunded_at = none;
        note = none;
      }))
      40

perform_all-Settled_example :
    Settled "r1" "c1" (entries_of "r1" done) (perform_all no_number (refund_try ∷ []) done)
perform_all-Settled_example =
    perform_all-Settled no_number (refund_try ∷ []) "r1" "c1" (entries_of "r1" done) done
      done-Settled

abbrev reopen : ReviewInput
reopen = record {
  status = assigned;
  note = none;
  assigned_to_id = none;
  rejection_reason = none;
  escalation_reason = none;
}

abbrev second_payment : ConfirmInput
second_payment = record {
  payment_reference = "ref-2";
  amount_minor = some 500;
  currency = "NGN";
  payment_provider = "PAYSTACK";
  paid_at = none;
  note = none;
}

abbrev paid_twice : World
paid_twice =
    perform no_number (Operations.confirm founder "r1" (some second_payment) 60)
      (perform no_number (Operations.review founder "r1" (some reopen) 50) done)

reopened_payment-Stuck_example :
    (w₁ w₂ : World) × (review_record_request founder "r1" (some reopen) 50 done ≡ ok w₁)
    × (confirm_record_request_payment founder "r1" (some second_payment) 60 w₁ ≡ ok w₂)
    × Stuck "r1" "c1" w₂
reopened_payment-Stuck_example =
    reopened_payment-Stuck founder "r1" "c1" (row_of done) done reopen second_payment 500 50 60
      done-IsSound done_here refl done_names done_admin_amount (omega arith) (omega arith) refl

paid_twice-Stuck : Stuck "r1" "c1" paid_twice
unfolding perform
paid_twice-Stuck =
    let (w₁, w₂, reviewed, confirmed, stuck) = reopened_payment-Stuck_example in
    rw (reviewed, confirmed) stuck

perform_all-Stuck_example : Stuck "r1" "c1" (perform_all no_number (refund_try ∷ []) paid_twice)
perform_all-Stuck_example =
    perform_all-Stuck no_number (refund_try ∷ []) "r1" "c1" paid_twice paid_twice-Stuck

-- The event names the request by its reference alone.
abbrev named_payload : PaystackPayload
named_payload = record payload { reference = some " RR-1 "; request_id = none }

named_payload_reference : as_string named_payload.reference ≡ some "RR-1"
unfolding as_string trim
named_payload_reference = refl

start-IsAlone : IsAlone "RR-1" start.requests
start-IsAlone k j q r here there h h' =
    let table = single-IsTable "r1" new_row in
    sym (only_row k q (table k q here)).0 ∙ (only_row j r (table j r there)).0

abbrev paid_once : World
paid_once = perform no_number (Operations.paystack 0 named_payload "job-1" 10) start

paid_once_lem :
    process_paystack_payment_confirmation no_number 0 named_payload "job-1" 10 start
    ≡ ok (record_request_payment_confirmed, paid_once)
unfolding perform_all perform process_paystack_payment_confirmation screen as_string as_number
    settle_screened settle_payment positive_amount paystack_row find_record_request_for_payment
    find_by_request_id find_by_reference save lookup put to_upper trim open_request
    assert_record_request_reviewer assert_actor_can_operate_institution fulfill_record_request
    fulfillable fulfilled_row release_entries credential_of
paid_once_lem = refl

paystack-paystack_example :
    process_paystack_payment_confirmation no_number 1 named_payload "job-2" 30 paid_once
    ≡ ok (already_confirmed, paid_once)
paystack-paystack_example =
    paystack-paystack no_number 0 1 named_payload "RR-1" "job-1" "job-2" 10 30 start paid_once
      start-IsSound named_payload_reference start-IsAlone paid_once_lem
