-- ===== src/Requests/Steps.antt =====
-- What an operation that is not refused does, as a step relation between worlds: each constructor
-- keeps the guards that later proofs rest on.
use mathlib.Core.List.{Memᴰ}
use acadid.Common.{
  ℕ, zero, suc, ◌-◌, String, Option, none, some, false, ◌≡◌, ◌∙◌, ◌⊎◌, inl, inr, ◌++◌, [], ◌∷◌,
  ◌==◌, arith, string_Eq, Bool-cases, Option-cases, coalesce,
}
use acadid.Common.Assoc.{Assoc, lookup, ◌∈◌, mem_of_lookup}
use acadid.Common.Number.{Number}
use acadid.Common.Text.{is_uuid}
use acadid.Common.Outcome.{Exception, ok, >>=-eq-ok, ok-injective}
use acadid.Authority.{Auth}
use acadid.Requests.{RecordRequest, World, save, human_actor}
use acadid.Requests.Guards.{is_closed, is_paid, or_else, open_request}
use acadid.Requests.Review.{ReviewInput, reviewable, reviewed_row, review_record_request}
use acadid.Requests.Confirm.{
  ConfirmInput, payable_amount, confirmed_row, confirm_record_request_payment,
}
use acadid.Requests.Refund.{
  RefundInput, refund_amount, refunded_row, refund_entries, refund_record_request_payment,
}
use acadid.Requests.Fulfill.{
  FulfillInput, Fresh, fulfillable, fulfilled_row, release_entries, credential_of,
  fulfill_record_request,
}
use acadid.Requests.Paystack.{
  PaystackPayload, Mode, found_or, Screened, other_event, other_status, charge, screen,
  find_request, settle_screened, paystack_row, settle_payment, by_uuid, by_request_id,
  find_by_request_id, find_by_reference, has_reference, pick_from, find_record_request_for_payment,
  process_paystack_payment_confirmation,
}

abbrev pub Stored : World → String → RecordRequest → Type 0
Stored w id r = lookup id w.requests ≡ some r

pub data Step (w w' : World) : Type 0 where
  reviewed :
      (id : String) (r : RecordRequest) (auth : Auth) (input : ReviewInput) (now : ℕ)
      → Stored w id r
      → w' ≡ save w (human_actor auth) (reviewed_row auth input now r) "record_request.review"
      → Step w w'
  confirmed :
      (id : String) (r : RecordRequest) (auth : Auth) (input : ConfirmInput) (expected now : ℕ)
      → Stored w id r
      → payable_amount input r ≡ ok expected
      → w'
        ≡ save w
            (human_actor auth)
            (confirmed_row auth input expected now r)
            "record_request.payment_confirmed"
      → Step w w'
  refunded :
      (id : String) (r : RecordRequest) (auth : Auth) (input : RefundInput) (at amount : ℕ)
      (action : String)
      → Stored w id r
      → refund_amount input r ≡ ok amount
      → w' ≡ record (save w (human_actor auth) (refunded_row auth input at amount r) action) {
        ledger = w.ledger ++ refund_entries input at amount r;
      }
      → Step w w'
  fulfilled :
      (id : String) (r : RecordRequest) (auth : Auth) (input : FulfillInput) (fresh : Fresh)
      (now : ℕ) (parties : String × String)
      → Stored w id r
      → fulfillable r ≡ ok parties
      → w'
        ≡ record (save w
            (human_actor auth)
            (fulfilled_row auth input fresh now r)
            "record_request.fulfill") {
              credentials = w.credentials ++ (credential_of fresh parties r ∷ []);
              ledger = w.ledger ++ release_entries input fresh now r;
            }
      → Step w w'
  paid_by_paystack :
      (id : String) (r : RecordRequest) (reference : String) (expected paid_at : ℕ)
      (currency job_id : String)
      → (id, r) ∈ w.requests
      → is_closed r.status ≡ false
      → is_paid r.payment_status ≡ false
      → w'
        ≡ save w none
            (paystack_row reference expected paid_at currency job_id r)
            "record_request.payment_confirmed"
      → Step w w'

abbrev pub Entry : RecordRequest → Assoc String RecordRequest → Type 0
Entry r rows = (id : String) × ((id, r) ∈ rows)

further :
    {r : RecordRequest} {rows : Assoc String RecordRequest} (k : String) (q : RecordRequest)
    → Entry r rows
    → Entry r ((k, q) ∷ rows)
further k q (id, entry) = (id, Memᴰ.tail entry)

open_request-Stored :
    (w : World) (auth : Auth) (id : String) (r : RecordRequest)
    → open_request w auth id ≡ ok r
    → Stored w id r
unfolding open_request
open_request-Stored w auth id r h = ground arith

pub review-Step :
    (auth : Auth) (id : String) (body : Option ReviewInput) (now : ℕ) (w : World) {w' : World}
    → review_record_request auth id body now w ≡ ok w'
    → Step w w'
unfolding review_record_request
review-Step auth id none now w h = cc
review-Step auth id (some input) now w h =
    let (r, p, q) = >>=-eq-ok (open_request w auth id) _ h in
    let (u, g, e) = >>=-eq-ok (reviewable input) _ q in
    reviewed id r auth input now (open_request-Stored w auth id r p) (ok-injective e)

pub confirm-Step :
    (auth : Auth) (id : String) (body : Option ConfirmInput) (now : ℕ) (w : World) {w' : World}
    → confirm_record_request_payment auth id body now w ≡ ok w'
    → Step w w'
unfolding confirm_record_request_payment
confirm-Step auth id none now w h = cc
confirm-Step auth id (some input) now w h =
    let (r, p, q) = >>=-eq-ok (open_request w auth id) _ h in
    let (expected, g, e) = >>=-eq-ok (payable_amount input r) _ q in
    confirmed id r auth input expected now (open_request-Stored w auth id r p) g (ok-injective e)

pub refund-Step :
    (auth : Auth) (id : String) (body : Option RefundInput) (now : ℕ) (w : World) {w' : World}
    → refund_record_request_payment auth id body now w ≡ ok w'
    → Step w w'
unfolding refund_record_request_payment
refund-Step auth id none now w h = cc
refund-Step auth id (some input) now w h =
    let (r, p, q) = >>=-eq-ok (open_request w auth id) _ h in
    let (amount, g, e) = >>=-eq-ok (refund_amount input r) _ q in
    refunded id r auth input _ amount _ (open_request-Stored w auth id r p) g (ok-injective e)

pub fulfill-Step :
    (auth : Auth) (id : String) (body : Option FulfillInput) (fresh : Fresh) (now : ℕ) (w : World)
    {w' : World}
    → fulfill_record_request auth id body fresh now w ≡ ok w'
    → Step w w'
unfolding fulfill_record_request
fulfill-Step auth id none fresh now w h = cc
fulfill-Step auth id (some input) fresh now w h =
    let (r, p, q) = >>=-eq-ok (open_request w auth id) _ h in
    let (parties, g, e) = >>=-eq-ok (fulfillable r) _ q in
    fulfilled id r auth input fresh now parties (open_request-Stored w auth id r p) g
      (ok-injective e)

found_by_request_id :
    (id : String) (rows : Assoc String RecordRequest) (r : RecordRequest)
    → find_by_request_id id rows ≡ some r
    → Entry r rows
unfolding find_by_request_id
found_by_request_id id [] r h = cc
found_by_request_id id ((k, q) ∷ rows) r h = elim (Bool-cases (q.request_id == id)) [
  | inl hit ↦ (k, Memᴰ.head (cc (rw hit at h)))
  | inr miss ↦ further k q (found_by_request_id id rows r (rw miss at h))
]

picked :
    (pick : ℕ) (k : String) (q : RecordRequest) {rows : Assoc String RecordRequest}
    {r : RecordRequest} (rest : Option RecordRequest)
    → ((x : RecordRequest) → rest ≡ some x → Entry x rows)
    → some (pick_from pick q rest) ≡ some r
    → Entry r ((k, q) ∷ rows)
picked zero k q rest entry h = (k, Memᴰ.head (cc h))
picked (suc pick) k q none entry h = (k, Memᴰ.head (cc h))
picked (suc pick) k q (some x) entry h = further k q (entry _ h)

found_by_reference :
    (pick : ℕ) (reference : String) (rows : Assoc String RecordRequest) (r : RecordRequest)
    → find_by_reference pick reference rows ≡ some r
    → Entry r rows
unfolding find_by_reference
found_by_reference pick reference [] r h = cc
found_by_reference pick reference ((k, q) ∷ rows) r h =
    elim (Bool-cases (has_reference reference q)) [
      | inl hit ↦
          picked pick k q (find_by_reference (pick - 1) reference rows)
            (found_by_reference (pick - 1) reference rows) (rw hit at h)
      | inr miss ↦ further k q (found_by_reference pick reference rows r (rw miss at h))
    ]

found_by_uuid :
    (id : Option String) (rows : Assoc String RecordRequest) (r : RecordRequest)
    → by_uuid id rows ≡ some r
    → Entry r rows
found_by_uuid none rows r h = cc
found_by_uuid (some id) rows r h = elim (Bool-cases (is_uuid id)) [
  | inl valid ↦ (id, mem_of_lookup id r rows (rw valid at h))
  | inr other ↦ cc (rw other at h)
]

found_for_request :
    (pick : ℕ) (request_id : Option String) (reference : String) (rows : Assoc String RecordRequest)
    (r : RecordRequest)
    → or_else (by_request_id request_id rows) (find_by_reference pick reference rows) ≡ some r
    → Entry r rows
found_for_request pick none reference rows r h = found_by_reference pick reference rows r h
found_for_request pick (some id) reference rows r h =
    elim (Option-cases (find_by_request_id id rows)) [
      | inl missing ↦ found_by_reference pick reference rows r (rw missing at h)
      | inr (q, hit) ↦ found_by_request_id id rows r (hit ∙ (rw hit at h))
    ]

pub found_for_payment :
    (pick : ℕ) (record_request_id request_id : Option String) (reference : String)
    (rows : Assoc String RecordRequest) (r : RecordRequest)
    → find_record_request_for_payment pick record_request_id request_id reference rows ≡ some r
    → Entry r rows
unfolding find_record_request_for_payment
found_for_payment pick record_request_id request_id reference rows r h =
    elim (Option-cases (by_uuid record_request_id rows)) [
      | inl missing ↦ found_for_request pick request_id reference rows r (rw missing at h)
      | inr (q, hit) ↦ found_by_uuid record_request_id rows r (hit ∙ (rw hit at h))
    ]

module _ (reference : String) (amount : ℕ) (currency : String) (paid_at : ℕ) (job_id : String)
    (w : World) (r : RecordRequest) where
  pub settle_cases :
      {mode : Mode} {w' : World}
      → settle_payment reference amount currency paid_at job_id w r ≡ ok (mode, w')
      → (w' ≡ w)
        ⊎ ((is_closed r.status ≡ false)
            × (is_paid r.payment_status ≡ false)
            × (w'
                ≡ save w none
                    (paystack_row reference
                      (coalesce r.amount_minor amount)
                      paid_at
                      currency
                      job_id
                      r)
                    "record_request.payment_confirmed"))
  unfolding settle_payment
  settle_cases h = ground arith

  settle-Step :
      {mode : Mode} {w' : World}
      → Entry r w.requests
      → settle_payment reference amount currency paid_at job_id w r ≡ ok (mode, w')
      → Step w w' ⊎ (w' ≡ w)
  settle-Step (id, entry) h = elim (settle_cases h) [
    | inl same ↦ inr same
    | inr (open_status, unpaid, e) ↦ inl (
        paid_by_paystack id r reference (coalesce r.amount_minor amount) paid_at currency job_id
          entry open_status unpaid e)
  ]

pub found_or-eq-ok :
    (o : Option RecordRequest) (e : Exception) {r : RecordRequest}
    → found_or o e ≡ ok r
    → o ≡ some r
found_or-eq-ok none e h = cc
found_or-eq-ok (some q) e h = cc

screened-Step :
    (pick : ℕ) (payload : PaystackPayload) (job_id : String) (now : ℕ) (w : World)
    (screened : Screened) {mode : Mode} {w' : World}
    → settle_screened pick payload job_id now w screened ≡ ok (mode, w')
    → Step w w' ⊎ (w' ≡ w)
unfolding settle_screened
screened-Step pick payload job_id now w other_event h = inr (cc)
screened-Step pick payload job_id now w other_status h = inr (cc)
screened-Step pick payload job_id now w (charge reference amount currency) h =
    let (r, hit, settled) = >>=-eq-ok (found_or (find_request pick payload reference w) _) _ h in
    settle-Step reference amount currency (coalesce payload.paid_at now) job_id w r
      (found_for_payment pick _ _ reference w.requests r (found_or-eq-ok _ _ hit)) settled

pub paystack-Step :
    (number_of : String → Number) (pick : ℕ) (payload : PaystackPayload) (job_id : String) (now : ℕ)
    (w : World) {mode : Mode} {w' : World}
    → process_paystack_payment_confirmation number_of pick payload job_id now w ≡ ok (mode, w')
    → Step w w' ⊎ (w' ≡ w)
unfolding process_paystack_payment_confirmation
paystack-Step number_of pick payload job_id now w h =
    let (screened, p, q) = >>=-eq-ok (screen number_of payload) _ h in
    screened-Step pick payload job_id now w screened q
