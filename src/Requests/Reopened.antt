-- ===== src/Requests/Reopened.antt =====
-- How a request that was fulfilled comes to hold a payment again, and what a payment of nothing
-- confirms.
use acadid.Common.{ℕ, ◌≤◌, ◌<◌, String, Option, some, false, ◌≡◌, refl, subst, string_Eq, arith}
use acadid.Common.Assoc.{lookup-put_self}
use acadid.Common.Outcome.{ok}
use acadid.Authority.{Auth, acadid_super_admin, is_role_refl, assert_actor_can_operate_institution}
use acadid.Requests.{
  Status, RecordRequest, World, save, human_actor, assert_record_request_reviewer,
}
use acadid.Requests.Guards.{open_request, amount_of, is_closed, is_fulfilled_status}
use acadid.Requests.Review.{ReviewInput, reviewable, reviewed_row, review_record_request}
use acadid.Requests.Confirm.{
  ConfirmInput, payable_amount, confirmed_row, confirm_record_request_payment,
}
use acadid.Requests.Steps.{Stored, review-Step, confirm-Step}
use acadid.Requests.Ledger.{IsSound}
use acadid.Requests.Changes.{Step-IsSound}
use acadid.Requests.Settled.{Stuck}

open_by_admin :
    (w : World) (auth : Auth) (id : String) (r : RecordRequest)
    → auth.role ≡ acadid_super_admin
    → Stored w id r
    → open_request w auth id ≡ ok r
unfolding open_request assert_record_request_reviewer assert_actor_can_operate_institution
open_by_admin w auth id r admin h = ground (arith, is_role_refl auth.role acadid_super_admin admin)

review_by_admin :
    (w : World) (auth : Auth) (id : String) (r : RecordRequest) (input : ReviewInput) (now : ℕ)
    → auth.role ≡ acadid_super_admin
    → Stored w id r
    → is_fulfilled_status input.status ≡ false
    → review_record_request auth id (some input) now w
      ≡ ok (save w (human_actor auth) (reviewed_row auth input now r) "record_request.review")
unfolding review_record_request reviewable
review_by_admin w auth id r input now admin h g = rw (open_by_admin w auth id r admin h, g)

confirm_by_admin :
    (w : World) (auth : Auth) (id : String) (r : RecordRequest) (input : ConfirmInput)
    (expected now : ℕ)
    → auth.role ≡ acadid_super_admin
    → Stored w id r
    → payable_amount input r ≡ ok expected
    → confirm_record_request_payment auth id (some input) now w
      ≡ ok (
          save w
            (human_actor auth)
            (confirmed_row auth input expected now r)
            "record_request.payment_confirmed")
unfolding confirm_record_request_payment
confirm_by_admin w auth id r input expected now admin h g =
    rw (open_by_admin w auth id r admin h, g)

open-unfulfilled : (s : Status) → is_closed s ≡ false → is_fulfilled_status s ≡ false
open-unfulfilled s h = ground arith

payable_open :
    (input : ConfirmInput) (r : RecordRequest) (n : ℕ)
    → is_closed r.status ≡ false
    → r.amount_minor ≡ some n
    → 0 < n
    → n ≤ amount_of input.amount_minor
    → payable_amount input r ≡ ok n
unfolding payable_amount
payable_open input r n h e pos enough = rw (h, e) (ground arith)

save-Stored :
    (w : World) (actor : Option String) (row : RecordRequest) (action id : String)
    → row.uuid ≡ id
    → Stored (save w actor row action) id row
unfolding save
save-Stored w actor row action id e =
    subst (λ k. Stored (save w actor row action) k row) e (lookup-put_self row.uuid row w.requests)

-- A request that was fulfilled is moved to an open status by a review and takes a second payment:
-- both are accepted from a super admin, and the payment is then held for a request that names a
-- credential, which no operation releases or refunds.
pub reopened_payment-Stuck :
    (auth : Auth) (id credential : String) (r : RecordRequest) (w : World) (opened : ReviewInput)
    (input : ConfirmInput) (n now₁ now₂ : ℕ)
    → IsSound w
    → Stored w id r
    → auth.role ≡ acadid_super_admin
    → r.fulfilled_credential_id ≡ some credential
    → r.amount_minor ≡ some n
    → 0 < n
    → n ≤ amount_of input.amount_minor
    → is_closed opened.status ≡ false
    → (w₁ w₂ : World) × (review_record_request auth id (some opened) now₁ w ≡ ok w₁)
      × (confirm_record_request_payment auth id (some input) now₂ w₁ ≡ ok w₂)
      × Stuck id credential w₂
unfolding reviewed_row confirmed_row
reopened_payment-Stuck auth id credential r w opened input n now₁ now₂ sound here admin names amount
      pos enough open_status =
    let row₁ : RecordRequest = reviewed_row auth opened now₁ r in
    let w₁ : World = save w (human_actor auth) row₁ "record_request.review" in
    let row₂ : RecordRequest = confirmed_row auth input n now₂ row₁ in
    let w₂ : World = save w₁ (human_actor auth) row₂ "record_request.payment_confirmed" in
    let e₁ : review_record_request auth id (some opened) now₁ w ≡ ok w₁ =
      review_by_admin w auth id r opened now₁ admin here
        (open-unfulfilled opened.status open_status) in
    let at : r.uuid ≡ id = sound.keyed id r here in
    let here₁ : Stored w₁ id row₁ = save-Stored w (human_actor auth) row₁ _ id at in
    let e₂ : confirm_record_request_payment auth id (some input) now₂ w₁ ≡ ok w₂ =
      confirm_by_admin w₁ auth id row₁ input n now₂ admin here₁
        (payable_open input row₁ n open_status amount pos enough) in
    (
      w₁,
      w₂,
      e₁,
      e₂,
      record {
        sound =
            Step-IsSound (confirm-Step auth id (some input) now₂ w₁ e₂)
              (Step-IsSound (review-Step auth id (some opened) now₁ w e₁) sound);
        row = row₂;
        here = save-Stored w₁ (human_actor auth) row₂ _ id at;
        names = names;
        in_escrow = refl;
      },
    )
