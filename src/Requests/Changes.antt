-- ===== src/Requests/Changes.antt =====
-- What each step of Requests/Steps.antt writes.
use acadid.Common.{
  ℕ, ◌≤◌, ltb, String, none, filterb, [], ◌∷◌, ◌++◌, false, ◌&&◌, ◌≡◌, refl, sym, ap, ◌∙◌, inl, inr,
  ◌==◌, string_Eq, arith, append-nil, count, if◌then◌else◌, Bool-cases,
}
use acadid.Common.Assoc.{put, IsTable}
use acadid.Common.Outcome.{ok}
use acadid.Authority.{Auth}
use acadid.Requests.{RecordRequest, World, human_actor, save, held}
use acadid.Requests.Guards.{amount_of}
use acadid.Requests.Review.{reviewed_row}
use acadid.Requests.Confirm.{confirmed_row}
use acadid.Requests.Refund.{RefundInput, is_confirm, refund_amount, refunded_row, refund_entries}
use acadid.Requests.Fulfill.{
  FulfillInput, Fresh, releases, fulfillable, fulfilled_row, release_entries, credential_of,
}
use acadid.Requests.Paystack.{paystack_row}
use acadid.Requests.Steps.{Stored, Step, reviewed, confirmed, refunded, fulfilled, paid_by_paystack}
use acadid.Requests.Ledger.{is_release, issued, IsSound, Wrote, wrote-IsSound}

-- A row that keeps its identifier and its credential, with nothing issued or recorded.
quiet :
    {w w' : World} {r row : RecordRequest}
    → row.uuid ≡ r.uuid
    → row.fulfilled_credential_id ≡ r.fulfilled_credential_id
    → (r.escrow_status ≡ held → row.escrow_status ≡ held)
    → w'.requests ≡ put row.uuid row w.requests
    → w'.credentials ≡ w.credentials
    → w'.ledger ≡ w.ledger
    → Wrote w w' r row
quiet {w} u f h rs cs l = record {
  cs = [];
  ls = [];
  same_uuid = u;
  rows = rs;
  credentials = cs ∙ sym (append-nil w.credentials);
  ledger = l ∙ sym (append-nil w.ledger);
  issue = λ j. rw f (omega arith);
  release = λ j. rw f (omega arith);
  elsewhere = λ j ne. refl;
  settled = λ c e. (f ∙ e, refl);
  stays_held = λ c e. h;
}

refund_entries_released :
    (input : RefundInput) (at amount : ℕ) (r : RecordRequest) (j : String)
    → count (λ e. is_release e.kind && e.source_id == j) (refund_entries input at amount r) ≡ 0
unfolding refund_entries
refund_entries_released input at amount r j = elim (Bool-cases (is_confirm input.action)) [
  | inl yes_it ↦ rw yes_it (omega arith)
  | inr not_it ↦ rw not_it
]

refund_amount-unissued :
    (input : RefundInput) (r : RecordRequest) {amount : ℕ}
    → refund_amount input r ≡ ok amount
    → r.fulfilled_credential_id ≡ none
unfolding refund_amount
refund_amount-unissued input r h = ground arith

refund_entries_elsewhere :
    (input : RefundInput) (at amount : ℕ) (r : RecordRequest) (j : String)
    → (r.uuid == j) ≡ false
    → filterb (λ e. e.source_id == j) (refund_entries input at amount r) ≡ []
unfolding refund_entries
refund_entries_elsewhere input at amount r j ne = elim (Bool-cases (is_confirm input.action)) [
  | inl yes_it ↦ rw (yes_it, ne)
  | inr not_it ↦ rw not_it
]

refunded-Wrote :
    {w w' : World} {r : RecordRequest} (auth : Auth) (input : RefundInput) (at amount : ℕ)
    (action : String)
    → refund_amount input r ≡ ok amount
    → w' ≡ record (save w (human_actor auth) (refunded_row auth input at amount r) action) {
      ledger = w.ledger ++ refund_entries input at amount r;
    }
    → Wrote w w' r (refunded_row auth input at amount r)
unfolding save refunded_row
refunded-Wrote {w} {r} auth input at amount action g e = record {
  cs = [];
  ls = refund_entries input at amount r;
  same_uuid = refl;
  rows = ap (λ v. v.requests) e;
  credentials = ap (λ v. v.credentials) e ∙ sym (append-nil w.credentials);
  ledger = ap (λ v. v.ledger) e;
  issue = λ j. omega arith;
  release = λ j. omega (arith, refund_entries_released input at amount r j);
  elsewhere = refund_entries_elsewhere input at amount r;
  settled = λ c h. cc (refund_amount-unissued input r g);
  stays_held = λ c h. cc (refund_amount-unissued input r g);
}

release_entries_elsewhere :
    (input : FulfillInput) (fresh : Fresh) (now : ℕ) (r : RecordRequest) (j : String)
    → (r.uuid == j) ≡ false
    → filterb (λ e. e.source_id == j) (release_entries input fresh now r) ≡ []
unfolding release_entries
release_entries_elsewhere input fresh now r j ne =
    elim (Bool-cases (releases input r && ltb 0 (amount_of r.amount_minor))) [
      | inl released ↦ rw (released, ne)
      | inr nothing ↦ rw nothing
    ]

release_entries_released :
    (input : FulfillInput) (fresh : Fresh) (now : ℕ) (r : RecordRequest) (j : String)
    → count (λ e. is_release e.kind && e.source_id == j) (release_entries input fresh now r)
      ≤ (if r.uuid == j then 1 else 0)
unfolding release_entries
release_entries_released input fresh now r j =
    elim (Bool-cases (releases input r && ltb 0 (amount_of r.amount_minor))) [
      | inl released ↦ rw released (omega arith)
      | inr nothing ↦ rw nothing (omega arith)
    ]

pub fulfillable-unissued :
    (r : RecordRequest) {parties : String × String}
    → fulfillable r ≡ ok parties
    → r.fulfilled_credential_id ≡ none
unfolding fulfillable
fulfillable-unissued r h = ground arith

fulfilled-Wrote :
    {w w' : World} {r : RecordRequest} (auth : Auth) (input : FulfillInput) (fresh : Fresh)
    (now : ℕ) (parties : String × String)
    → fulfillable r ≡ ok parties
    → w'
      ≡ record (save w
          (human_actor auth)
          (fulfilled_row auth input fresh now r)
          "record_request.fulfill") {
            credentials = w.credentials ++ (credential_of fresh parties r ∷ []);
            ledger = w.ledger ++ release_entries input fresh now r;
          }
    → Wrote w w' r (fulfilled_row auth input fresh now r)
unfolding save fulfilled_row credential_of
fulfilled-Wrote {r} auth input fresh now parties g e = record {
  cs = credential_of fresh parties r ∷ [];
  ls = release_entries input fresh now r;
  same_uuid = refl;
  rows = ap (λ v. v.requests) e;
  credentials = ap (λ v. v.credentials) e;
  ledger = ap (λ v. v.ledger) e;
  issue = λ j. elim (Bool-cases (r.uuid == j)) [
    | inl same ↦ rw same (omega (arith, unissued_before))
    | inr other ↦ rw other
  ];
  release = λ j. elim (Bool-cases (r.uuid == j)) [
    | inl same ↦
        rw same (
          omega (arith, unissued_before, rw same at (release_entries_released input fresh now r j)))
    | inr other ↦
        rw other (omega (arith, rw other at (release_entries_released input fresh now r j)))
  ];
  elsewhere = release_entries_elsewhere input fresh now r;
  settled = λ c h. cc (fulfillable-unissued r g);
  stays_held = λ c h. cc (fulfillable-unissued r g);
}
  where
    unissued_before : issued r ≡ 0
    unissued_before = rw (fulfillable-unissued r g)

-- The row that a step writes, and that it was stored before.
pub record Change (w w' : World) : Type 0 where
  pub id : String
  pub before : RecordRequest
  pub row : RecordRequest
  pub here : Stored w id before
  pub wrote : Wrote w w' before row

pub Step-Change : {w w' : World} → Step w w' → IsTable w.requests → Change w w'
unfolding save reviewed_row confirmed_row paystack_row
Step-Change (reviewed id r auth input now here e) table = record {
  id = id;
  before = r;
  row = reviewed_row auth input now r;
  here = here;
  wrote =
      quiet refl refl (λ h. h) (ap (λ v. v.requests) e) (ap (λ v. v.credentials) e)
        (ap (λ v. v.ledger) e);
}
Step-Change (confirmed id r auth input expected now here g e) table = record {
  id = id;
  before = r;
  row = confirmed_row auth input expected now r;
  here = here;
  wrote =
      quiet refl refl (λ h. refl) (ap (λ v. v.requests) e) (ap (λ v. v.credentials) e)
        (ap (λ v. v.ledger) e);
}
Step-Change (refunded id r auth input at amount action here g e) table = record {
  id = id;
  before = r;
  row = refunded_row auth input at amount r;
  here = here;
  wrote = refunded-Wrote auth input at amount action g e;
}
Step-Change (fulfilled id r auth input fresh now parties here g e) table = record {
  id = id;
  before = r;
  row = fulfilled_row auth input fresh now r;
  here = here;
  wrote = fulfilled-Wrote auth input fresh now parties g e;
}
Step-Change (paid_by_paystack id r reference expected paid_at currency job_id entry g h e) table =
    record {
      id = id;
      before = r;
      row = paystack_row reference expected paid_at currency job_id r;
      here = table id r entry;
      wrote =
          quiet refl refl (λ k. refl) (ap (λ v. v.requests) e) (ap (λ v. v.credentials) e)
            (ap (λ v. v.ledger) e);
    }

-- An operation that is not refused keeps soundness.
pub Step-IsSound : {w w' : World} → Step w w' → IsSound w → IsSound w'
Step-IsSound step sound =
    let c = Step-Change step sound.table in wrote-IsSound c.id sound c.here c.wrote
