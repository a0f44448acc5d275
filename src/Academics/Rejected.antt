-- ===== src/Academics/Rejected.antt =====
-- What a review makes of a transfer that was completed and is disputed.
use acadid.Common.{ℕ, String, some, true, ◌≡◌, refl, ◌∙◌, subst, string_Eq}
use acadid.Common.Assoc.{lookup, lookup-put_self}
use acadid.Common.Outcome.{ok}
use acadid.Authority.{Auth, assert_actor_can_operate_institution}
use acadid.Academics.{disputed, rejected, Transfer, Register, audited}
use acadid.Academics.Transfers.{
  ReviewTransferInput, reject, write_transfer, rejected_transfer, existing_transfer,
  review_transfer_request,
}
use acadid.Academics.Left.{has_left, has_left-same}

rejected-eq-ok :
    (auth : Auth) (id : String) (input : ReviewTransferInput) (fresh : String) (now : ℕ)
    (t : Transfer) (db : Register)
    → lookup id db.transfers ≡ some t
    → t.status ≡ disputed
    → input.decision ≡ reject
    → assert_actor_can_operate_institution db.users auth t.from_institution_id ≡ ok tt
    → review_transfer_request auth id (some input) fresh now db
      ≡ ok (
          audited auth "transfer_request.reject" t.uuid t.from_institution_id
            (write_transfer (rejected_transfer auth input now t) db))
unfolding review_transfer_request existing_transfer
rejected-eq-ok auth id input fresh now t db found open_again rejects allowed =
    rw (found, allowed, open_again, rejects) refl

-- A disputed transfer whose enrolment has ended is rejected by a review that asks for it, from an
-- actor who may act for the school: the transfer becomes rejected and names the same enrolment, and
-- that enrolment stays ended.
pub review_transfer_request-disputed :
    (auth : Auth) (id e : String) (input : ReviewTransferInput) (fresh : String) (now : ℕ)
    (t : Transfer) (db : Register)
    → lookup id db.transfers ≡ some t
    → t.uuid ≡ id
    → t.status ≡ disputed
    → input.decision ≡ reject
    → assert_actor_can_operate_institution db.users auth t.from_institution_id ≡ ok tt
    → t.from_enrolment_id ≡ some e
    → has_left e db ≡ true
    → (after : Register) × (row : Transfer) × (review_transfer_request auth id
          (some input)
          fresh
          now
          db
        ≡ ok after)
      × (lookup id after.transfers ≡ some row)
      × (row.status ≡ rejected)
      × (row.from_enrolment_id ≡ some e)
      × (has_left e after ≡ true)
unfolding audited rejected_transfer
review_transfer_request-disputed auth id e input fresh now t db found keyed open_again rejects
      allowed from left =
    let row = rejected_transfer auth input now t in
    let after =
      audited auth "transfer_request.reject" t.uuid t.from_institution_id (write_transfer row db) in
    (
      after,
      row,
      rejected-eq-ok auth id input fresh now t db found open_again rejects allowed,
      subst (λ k. lookup k after.transfers ≡ some row) keyed
          (lookup-put_self t.uuid row db.transfers),
      refl,
      from,
      has_left-same e db after refl ∙ left,
    )
