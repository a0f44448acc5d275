-- ===== src/Requests/Replay.antt =====
-- A second delivery of a Paystack event that was confirmed.
use mathlib.Core.List.{Memᴰ}
use acadid.Common.{
  ℕ, zero, suc, ◌-◌, String, Option, none, some, [], ◌∷◌, true, false, ◌≡◌, refl, sym, subst, ap,
  ◌∙◌, inl, inr, ◌==◌, string_Eq, arith, coalesce, Bool-cases, Option-cases, some-eq-some,
}
use acadid.Common.Assoc.{Assoc, lookup, put, remove, lookup-put, mem_of_lookup, ◌∈◌}
use acadid.Common.Number.{Number}
use acadid.Common.Text.{is_uuid}
use acadid.Common.Outcome.{ok, >>=-eq-ok}
use acadid.Requests.{Status, RecordRequest, World, save}
use acadid.Requests.Guards.{or_else, is_closed}
use acadid.Requests.Confirm.{after_payment}
use acadid.Requests.Paystack.{
  PaystackPayload, found_or, Screened, other_event, other_status, charge, screen, find_request,
  settle_screened, already_confirmed, record_request_payment_confirmed, by_request_id,
  find_by_request_id, find_by_reference, has_reference, pick_from, as_string, positive_amount,
  find_record_request_for_payment, paystack_row, settle_payment,
  process_paystack_payment_confirmation,
}
use acadid.Requests.Steps.{Entry, found_for_payment, found_or-eq-ok}
use acadid.Requests.Ledger.{IsSound}

-- A search that finds nothing passed over each row.
missed_by_request_id :
    (id : String) (rows : Assoc String RecordRequest) {k : String} {r : RecordRequest}
    → find_by_request_id id rows ≡ none
    → (k, r) ∈ rows
    → (r.request_id == id) ≡ false
unfolding find_by_request_id
missed_by_request_id id [] h m = elim m [ ]
missed_by_request_id id ((j, q) ∷ rows) h (Memᴰ.head p) = elim (Bool-cases (q.request_id == id)) [
  | inl hit ↦ cc (rw hit at h)
  | inr miss ↦ ap (λ x. x.1.request_id == id) p ∙ miss
]
missed_by_request_id id ((j, q) ∷ rows) h (Memᴰ.tail m) = elim (Bool-cases (q.request_id == id)) [
  | inl hit ↦ cc (rw hit at h)
  | inr miss ↦ missed_by_request_id id rows (rw miss at h) m
]

hit_by_request_id :
    (id : String) (rows : Assoc String RecordRequest) {r : RecordRequest}
    → find_by_request_id id rows ≡ some r
    → (r.request_id == id) ≡ true
unfolding find_by_request_id
hit_by_request_id id [] h = cc
hit_by_request_id id ((j, q) ∷ rows) h = elim (Bool-cases (q.request_id == id)) [
  | inl hit ↦
      let e : some q ≡ some _ = rw hit at h in
      ap (λ x. x.request_id == id) (some-eq-some (sym e)) ∙ hit
  | inr miss ↦ hit_by_request_id id rows (rw miss at h)
]

missed-remove :
    (id k : String) (rows : Assoc String RecordRequest)
    → find_by_request_id id rows ≡ none
    → find_by_request_id id (remove k rows) ≡ none
unfolding find_by_request_id remove
missed-remove id k [] h = refl
missed-remove id k ((j, q) ∷ rows) h = elim (Bool-cases (q.request_id == id)) [
  | inl hit ↦ cc (rw hit at h)
  | inr miss ↦
      let rest : find_by_request_id id (remove k rows) ≡ none =
        missed-remove id k rows (rw miss at h) in
      elim (Bool-cases (j == k)) [ inl same ↦ rw same rest | inr other ↦ rw (other, miss) rest ]
]

-- No two rows match the reference.
abbrev pub IsAlone : String → Assoc String RecordRequest → Type 0
IsAlone reference rows =
    (k j : String) (q r : RecordRequest)
    → (k, q) ∈ rows
    → (j, r) ∈ rows
    → has_reference reference q ≡ true
    → has_reference reference r ≡ true
    → k ≡ j

hit_by_reference :
    (pick : ℕ) (reference : String) (rows : Assoc String RecordRequest) {r : RecordRequest}
    → find_by_reference pick reference rows ≡ some r
    → has_reference reference r ≡ true
unfolding find_by_reference
hit_by_reference pick reference [] h = cc
hit_by_reference pick reference ((k, q) ∷ rows) h = elim (Bool-cases (has_reference reference q)) [
  | inr miss ↦ hit_by_reference pick reference rows (rw miss at h)
  | inl hit ↦
      picked_hit pick q (find_by_reference (pick - 1) reference rows) hit
        (λ x e. hit_by_reference (pick - 1) reference rows e) (rw hit at h)
]
  where
    picked_hit :
        (pick : ℕ) (q : RecordRequest) (rest : Option RecordRequest) {r : RecordRequest}
        → has_reference reference q ≡ true
        → ((x : RecordRequest) → rest ≡ some x → has_reference reference x ≡ true)
        → some (pick_from pick q rest) ≡ some r
        → has_reference reference r ≡ true
    picked_hit zero q rest hit later e = ap (has_reference reference) (some-eq-some (sym e)) ∙ hit
    picked_hit (suc pick) q none hit later e =
        ap (has_reference reference) (some-eq-some (sym e)) ∙ hit
    picked_hit (suc pick) q (some x) hit later e = later _ e

-- Where only the row of the key matches, none is left without it.
missed_by_reference :
    (pick : ℕ) (reference id : String) (rows : Assoc String RecordRequest)
    → ((k : String) (q : RecordRequest) → (k, q) ∈ rows → has_reference reference q ≡ true → k ≡ id)
    → find_by_reference pick reference (remove id rows) ≡ none
unfolding find_by_reference remove
missed_by_reference pick reference id [] only = refl
missed_by_reference pick reference id ((k, q) ∷ rows) only =
    let rest : find_by_reference pick reference (remove id rows) ≡ none =
      missed_by_reference pick reference id rows (λ j x m. only j x (Memᴰ.tail m)) in
    elim (Bool-cases (k == id)) [
      | inl same ↦ rw same rest
      | inr other ↦ elim (Bool-cases (has_reference reference q)) [
        | inr miss ↦ rw (other, miss) rest
        | inl hit ↦ cc ((string_Eq.beq_iff k id).1 (only k q (Memᴰ.head refl) hit), other)
      ]
    ]

picked_alone : (n : ℕ) (q : RecordRequest) → pick_from n q none ≡ q
picked_alone zero q = refl
picked_alone (suc n) q = refl

-- The row that a payment settles is the one that the same search finds afterwards.
module _ (reference : String) (rows : Assoc String RecordRequest) (r row : RecordRequest)
    (same_uuid : row.uuid ≡ r.uuid) (same_id : row.request_id ≡ r.request_id)
    (paid_with : row.payment_reference ≡ some reference)
    (keyed : (k : String) (q : RecordRequest) → lookup k rows ≡ some q → q.uuid ≡ k)
    (stored : lookup r.uuid rows ≡ some r) (alone : IsAlone reference rows) (pick again : ℕ) where
  found_again_by_reference :
      find_by_reference pick reference rows ≡ some r
      → find_by_reference again reference (put row.uuid row rows) ≡ some row
  unfolding find_by_reference put
  found_again_by_reference h =
      let rest : find_by_reference (again - 1) reference (remove row.uuid rows) ≡ none =
        missed_by_reference (again - 1) reference row.uuid rows (λ k q m hit.
          alone k r.uuid q r m (mem_of_lookup r.uuid r rows stored) hit
            (hit_by_reference pick reference rows h)
          ∙ sym same_uuid) in
      let matches : has_reference reference row ≡ true =
        rw (paid_with, (string_Eq.beq_iff reference reference).1 refl) in
      rw (matches, rest) (ap some (picked_alone again row))

  by_request_id_hit :
      (id : String)
      → (row.request_id == id) ≡ true
      → find_by_request_id id (put row.uuid row rows) ≡ some row
  unfolding find_by_request_id put
  by_request_id_hit id hit = rw hit

  by_request_id_miss :
      (id : String)
      → find_by_request_id id rows ≡ none
      → find_by_request_id id (put row.uuid row rows) ≡ none
  unfolding find_by_request_id put
  by_request_id_miss id missed =
      let other : (row.request_id == id) ≡ false =
        ap (λ x. x == id) same_id
        ∙ missed_by_request_id id rows missed (mem_of_lookup r.uuid r rows stored) in
      rw other (missed-remove id row.uuid rows missed)

  found_again_for_request :
      (request_id : Option String)
      → or_else (by_request_id request_id rows) (find_by_reference pick reference rows) ≡ some r
      → or_else
          (by_request_id request_id (put row.uuid row rows))
          (find_by_reference again reference (put row.uuid row rows))
        ≡ some row
  found_again_for_request none h = found_again_by_reference h
  found_again_for_request (some id) h = elim (Option-cases (find_by_request_id id rows)) [
    | inl missed ↦ rw (by_request_id_miss id missed) (found_again_by_reference (rw missed at h))
    | inr (q, hit) ↦
        let e : q ≡ r = some-eq-some (rw hit at h) in
        rw (
          by_request_id_hit id (
            ap (λ x. x == id) (same_id ∙ ap (λ x. x.request_id) (sym e))
            ∙ hit_by_request_id id rows hit))
  ]

  found_again_by_uuid :
      (id : String) → lookup id rows ≡ some r → lookup id (put row.uuid row rows) ≡ some row
  found_again_by_uuid id h =
      rw (lookup-put, (string_Eq.beq_iff row.uuid id).1 (same_uuid ∙ keyed id r h))

  missed_again_by_uuid :
      (id : String) → lookup id rows ≡ none → lookup id (put row.uuid row rows) ≡ none
  missed_again_by_uuid id h = elim (Bool-cases (row.uuid == id)) [
    | inl same ↦
        let at : r.uuid ≡ id = sym same_uuid ∙ (string_Eq.beq_iff row.uuid id).0 same in
        cc (at, stored, h)
    | inr other ↦ rw (lookup-put, other) h
  ]

  found_again :
      (record_request_id request_id : Option String)
      → find_record_request_for_payment pick record_request_id request_id reference rows ≡ some r
      → find_record_request_for_payment again record_request_id request_id reference
          (put row.uuid row rows)
        ≡ some row
  unfolding find_record_request_for_payment
  found_again none request_id h = found_again_for_request request_id h
  found_again (some id) request_id h = elim (Bool-cases (is_uuid id)) [
    | inr other ↦ rw other (found_again_for_request request_id (rw other at h))
    | inl valid ↦ elim (Option-cases (lookup id rows)) [
      | inl missed ↦
          rw (valid, missed_again_by_uuid id missed)
            (found_again_for_request request_id (rw (valid, missed) at h))
      | inr (q, hit) ↦
          let e : q ≡ r = some-eq-some (rw (valid, hit) at h) in
          rw (valid, found_again_by_uuid id (hit ∙ ap some e))
    ]
  ]

Entry-stored :
    (w : World) (r : RecordRequest)
    → IsSound w
    → Entry r w.requests
    → lookup r.uuid w.requests ≡ some r
Entry-stored w r sound (k, m) =
    let stored : lookup k w.requests ≡ some r = sound.table k r m in
    subst (λ j. lookup j w.requests ≡ some r) (sym (sound.keyed k r stored)) stored

after_payment-open : (s : Status) → is_closed s ≡ false → is_closed (after_payment s) ≡ false
after_payment-open s h = ground arith

settle_again :
    (reference : String) (amount : ℕ) (currency : String) (paid_at : ℕ) (job_id : String)
    (w : World) (expected paid_at' : ℕ) (currency' job_id' : String) (r : RecordRequest)
    → is_closed r.status ≡ false
    → settle_payment reference amount currency paid_at job_id w
        (paystack_row reference expected paid_at' currency' job_id' r)
      ≡ ok (already_confirmed, w)
unfolding settle_payment paystack_row
settle_again reference amount currency paid_at job_id w expected paid_at' currency' job_id' r h =
    rw (after_payment-open r.status h, (string_Eq.beq_iff reference reference).1 refl)

-- A confirmation has settled a row of the database, and wrote it.
confirmed_cases :
    (reference : String) (amount : ℕ) (currency : String) (paid_at : ℕ) (job_id : String)
    (w : World) (r : RecordRequest) {w' : World}
    → settle_payment reference amount currency paid_at job_id w r
      ≡ ok (record_request_payment_confirmed, w')
    → (is_closed r.status ≡ false)
      × (w'
          ≡ save w none
              (paystack_row reference (coalesce r.amount_minor amount) paid_at currency job_id r)
              "record_request.payment_confirmed")
unfolding settle_payment
confirmed_cases reference amount currency paid_at job_id w r h = ground arith

screen-charge :
    (number_of : String → Number) (payload : PaystackPayload) {reference : String} {amount : ℕ}
    {currency : String}
    → screen number_of payload ≡ ok (charge reference amount currency)
    → as_string payload.reference ≡ some reference
unfolding screen positive_amount
screen-charge number_of payload h = ground arith

module _ (pick again : ℕ) (payload : PaystackPayload) (job_id job_id' : String) (now now' : ℕ)
    (w w' : World) (sound : IsSound w) where
  settled_again :
      (screened : Screened)
      → ((reference : String) (amount : ℕ) (currency : String)
          → screened ≡ charge reference amount currency
          → IsAlone reference w.requests)
      → settle_screened pick payload job_id now w screened
        ≡ ok (record_request_payment_confirmed, w')
      → settle_screened again payload job_id' now' w' screened ≡ ok (already_confirmed, w')
  unfolding settle_screened save paystack_row
  settled_again other_event alone h = cc
  settled_again other_status alone h = cc
  settled_again (charge reference amount currency) alone h =
      let (r, hit, settled) = >>=-eq-ok (found_or (find_request pick payload reference w) _) _ h in
      let (open_status, e) = confirmed_cases reference amount currency _ job_id w r settled in
      let row : RecordRequest =
        paystack_row reference (coalesce r.amount_minor amount) (coalesce payload.paid_at now)
          currency job_id r in
      let found : find_request again payload reference w' ≡ some row = rw (ap (λ v. v.requests) e) (
        found_again reference w.requests r row refl refl refl sound.keyed
          (Entry-stored w r sound
            (found_for_payment pick _ _ reference w.requests r (found_or-eq-ok _ _ hit)))
          (alone reference amount currency refl) pick again _ _ (found_or-eq-ok _ _ hit)) in
      rw found (
        settle_again reference amount currency (coalesce payload.paid_at now') job_id' w' _ _ _ _ r
          open_status)

-- Where no two requests match the reference of a Paystack event, an event that was confirmed is
-- answered as already confirmed when it is delivered again, by whatever job, at whatever time and
-- whichever matching row the database answers with, and changes nothing more.
pub paystack-paystack :
    (number_of : String → Number) (pick again : ℕ) (payload : PaystackPayload)
    (reference job_id job_id' : String) (now now' : ℕ) (w w' : World)
    → IsSound w
    → as_string payload.reference ≡ some reference
    → IsAlone reference w.requests
    → process_paystack_payment_confirmation number_of pick payload job_id now w
      ≡ ok (record_request_payment_confirmed, w')
    → process_paystack_payment_confirmation number_of again payload job_id' now' w'
      ≡ ok (already_confirmed, w')
unfolding process_paystack_payment_confirmation
paystack-paystack number_of pick again payload reference job_id job_id' now now' w w' sound named
      alone h =
    let (screened, p, q) = >>=-eq-ok (screen number_of payload) _ h in
    rw p (
      settled_again pick again payload job_id job_id' now now' w w' sound screened
        (λ other amount currency e.
          subst (λ x. IsAlone x w.requests)
            (some-eq-some (sym named ∙ screen-charge number_of payload (p ∙ ap ok e))) alone)
        q)
