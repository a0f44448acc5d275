-- ===== src/Academics/Rolled.antt =====
-- What a confirmed rollover leaves, and which enrolments cannot be rolled over or transferred again.
use acadid.Common.{
  ℕ, suc, String, Option, none, some, List, [], ◌∷◌, All, Bool, true, false, ◌||◌, ◌&&◌, ◌≡◌, ◌≢◌,
  refl, sym, ap, ◌∙◌, subst, inl, inr, ◌==◌, string_Eq, if_some, Option-cases, Bool-cases, arith,
}
use acadid.Common.Assoc.{lookup}
use acadid.Common.Outcome.{
  ok, bad_request, >>=-eq-ok, >>-eq-ok, guarded-eq-ok, present-eq-ok, ok-injective,
}
use acadid.Authority.{Auth, is_some_eq}
use acadid.Academics.{is_active, Enrolment, Transfer, Register, audited}
use acadid.Academics.Rollover.{
  DecisionInput, RolloverInput, FreshRows, in_scope, is_missing, some_missing, confirm_one,
  confirm_all, confirm_rollover,
}
use acadid.Academics.Transfers.{
  ReviewTransferInput, ReviewDecision, TransferInput, FreshTransfer, create_transfer_request,
  existing_transfer, review_transfer_request, reject, cancel, approve, available_enrolment,
  is_unavailable, source_enrolment, complete_transfer, reviewed_transfer,
}
use acadid.Academics.Guards.{resolve_human_institution}
use acadid.Academics.Left.{has_left, has_left-same, IsClosed}
use acadid.Academics.Advance.{
  confirm_rollover-Confirmed, confirm_one-Advances, confirm_all-Advances,
}
use acadid.Academics.Operations.{
  Operation, confirming, requesting_transfer, reviewing_transfer, perform, run, run-Advances,
}

-- Every decision finds its enrolment under its identifier.
confirm_all-has_left :
    (auth : Auth) (institution : String) (input : RolloverInput) (now : ℕ) (before : Register)
    (fresh : ℕ → FreshRows) (i : ℕ) (ds : List DecisionInput) (db : Register) {after : Register}
    → IsClosed before
    → IsClosed db
    → confirm_all auth institution input now before fresh i ds db ≡ ok after
    → All (λ d. has_left d.enrolment_id after ≡ true) ds
unfolding confirm_all
confirm_all-has_left auth institution input now before fresh i [] db c sound h = tt
confirm_all-has_left auth institution input now before fresh i (d ∷ ds) db c sound h =
    let (e, found, rest) =
      present-eq-ok (lookup d.enrolment_id before.enrolments)
        (bad_request "Rollover decision references an unknown enrolment.") _ h in
    let (next, one, all) =
      >>=-eq-ok (confirm_one auth institution input now (fresh i) d e db) _ rest in
    let (step, left) = confirm_one-Advances auth institution input now (fresh i) d e db sound one in
    let others =
      confirm_all-Advances auth institution input now before fresh (suc i) ds next
        (step.sound sound) all in
    (
      others.keeps d.enrolment_id
          (subst (λ id. has_left id next ≡ true) (c.keyed d.enrolment_id e found) left),
      confirm_all-has_left auth institution input now before fresh (suc i) ds next c
          (step.sound sound) all,
    )

audited-has_left :
    (auth : Auth) (action target institution id : String) (written : Register) {after : Register}
    → ok (audited auth action target institution written) ≡ ok after
    → has_left id after ≡ has_left id written
unfolding audited
audited-has_left auth action target institution id written {after} h =
    has_left-same id written after (ap (λ x. x.enrolments) (ok-injective h))

All-map {ℓ κ} :
    {A : Type ℓ} {P Q : A → Type κ} (f : (a : A) → P a → Q a) (xs : List A) → All P xs → All Q xs
All-map f [] h = tt
All-map f (x ∷ xs) (p, ps) = (f x p, All-map f xs ps)

-- Where rows stand under their identifiers and rollover records name only ended enrolments, a
-- confirmed rollover leaves the enrolment of each of its decisions in place and no longer active.
pub confirm_rollover-has_left :
    (auth : Auth) (input : RolloverInput) (now : ℕ) (fresh : ℕ → FreshRows) (db : Register)
    {after : Register}
    → IsClosed db
    → confirm_rollover auth (some input) now fresh db ≡ ok after
    → All (λ d. has_left d.enrolment_id after ≡ true) input.decisions
confirm_rollover-has_left auth input now fresh db c h =
    let r = confirm_rollover-Confirmed auth input now fresh db h in
    All-map (λ d left. audited-has_left auth _ _ _ d.enrolment_id r.written r.audits ∙ left)
      input.decisions
      (confirm_all-has_left auth r.institution.uuid input now db fresh 0 input.decisions db c c
        r.confirms)

abbrev pub names : String → List DecisionInput → Bool
names id [] = false
names id (d ∷ ds) = (d.enrolment_id == id) || names id ds

has_left-inactive :
    (id : String) (e : Enrolment) (db : Register)
    → lookup id db.enrolments ≡ some e
    → has_left id db ≡ true
    → is_active e.status ≡ false
unfolding has_left
has_left-inactive id e db found h = ground (arith, rw found at h)

is_missing-has_left :
    (db : Register) (institution : String) (input : RolloverInput) (d : DecisionInput)
    → has_left d.enrolment_id db ≡ true
    → is_missing db institution input d ≡ true
unfolding is_missing in_scope
is_missing-has_left db institution input d h =
    elim (Option-cases (lookup d.enrolment_id db.enrolments)) [
      | inl absent ↦ rw absent refl
      | inr (e, found) ↦ rw (found, has_left-inactive d.enrolment_id e db found h) (ground arith)
    ]

some_missing-has_left :
    (db : Register) (institution : String) (input : RolloverInput) (id : String)
    (ds : List DecisionInput)
    → has_left id db ≡ true
    → names id ds ≡ true
    → some_missing db institution input ds ≡ true
some_missing-has_left db institution input id [] h n = cc
some_missing-has_left db institution input id (d ∷ ds) h n =
    elim (Bool-cases (d.enrolment_id == id)) [
      | inl same ↦
          rw
            (is_missing-has_left db institution input d (
              subst (λ i. has_left i db ≡ true) (sym ((string_Eq.beq_iff d.enrolment_id id).0 same))
                h))
            refl
      | inr other ↦
          rw (some_missing-has_left db institution input id ds h (rw other at n)) (ground arith)
    ]

has_left-unavailable :
    (message institution id : String) (db : Register) {e : Enrolment}
    → has_left id db ≡ true
    → available_enrolment message institution db id ≢ ok e
unfolding available_enrolment
has_left-unavailable message institution id db {e} h a =
    let (row, found, b) = present-eq-ok (lookup id db.enrolments) (bad_request message) _ a in
    let (fits, c) = guarded-eq-ok (is_unavailable institution row) (bad_request message) _ b in
    ground (arith, fits, has_left-inactive id row db found h)

abbrev pub is_approve : ReviewDecision → Bool
is_approve approve = true
is_approve _ = false

is_some_eq-some : (o : Option String) (id : String) → is_some_eq o id ≡ true → o ≡ some id
is_some_eq-some none id h = cc
is_some_eq-some (some a) id h = ap some ((string_Eq.beq_iff a id).0 h)

-- Whether the operation would end the enrolment or open a transfer of it.
unfoldable pub is_about : String → Register → Operation → Bool
is_about id db (confirming auth (some input) now fresh) = names id input.decisions
is_about id db (requesting_transfer auth (some input) fresh now) = input.enrolment_id == id
is_about id db (reviewing_transfer auth transfer (some input) fresh now) =
    is_approve input.decision
    && if_some (lookup transfer db.transfers) false (λ t. is_some_eq t.from_enrolment_id id)
is_about id db _ = false

confirm_rollover-again :
    (auth : Auth) (input : RolloverInput) (now : ℕ) (fresh : ℕ → FreshRows) (id : String)
    (db : Register) {after : Register}
    → has_left id db ≡ true
    → names id input.decisions ≡ true
    → confirm_rollover auth (some input) now fresh db ≢ ok after
confirm_rollover-again auth input now fresh id db h n e =
    let c = confirm_rollover-Confirmed auth input now fresh db e in
    cc (some_missing-has_left db c.institution.uuid input id input.decisions h n, c.none_missing)

create_transfer_request-again :
    (auth : Auth) (input : TransferInput) (fresh : FreshTransfer) (now : ℕ) (id : String)
    (db : Register) {after : Register}
    → has_left id db ≡ true
    → (input.enrolment_id == id) ≡ true
    → create_transfer_request auth (some input) fresh now db ≢ ok after
unfolding create_transfer_request
create_transfer_request-again auth input fresh now id db h n x =
    let (i, resolved, a) = >>=-eq-ok (resolve_human_institution db auth input.institution_id) _ x in
    let (e, available, b) = >>=-eq-ok (available_enrolment _ i.uuid db input.enrolment_id) _ a in
    has_left-unavailable _ i.uuid input.enrolment_id db
      (subst (λ j. has_left j db ≡ true) (sym ((string_Eq.beq_iff input.enrolment_id id).0 n)) h)
      available

complete_transfer-again :
    (auth : Auth) (input : ReviewTransferInput) (fresh : String) (now : ℕ) (t : Transfer)
    (id : String) (db : Register) {after : Register}
    → has_left id db ≡ true
    → t.from_enrolment_id ≡ some id
    → complete_transfer auth input fresh now t db ≢ ok after
unfolding complete_transfer
complete_transfer-again auth input fresh now t id db h n x =
    let (e, available, a) = >>=-eq-ok (source_enrolment db t) _ x in
    has_left-unavailable "Active source enrolment is no longer available for transfer."
      t.from_institution_id id db h (rw n at available)

existing_transfer-eq-ok :
    (db : Register) (id : String) {t : Transfer}
    → existing_transfer db id ≡ ok t
    → lookup id db.transfers ≡ some t
unfolding existing_transfer
existing_transfer-eq-ok db id {t} h =
    let (row, found, same) = present-eq-ok (lookup id db.transfers) _ ok h in
    found ∙ ap some (sym (ok-injective same))

reviewed_transfer-again :
    (auth : Auth) (input : ReviewTransferInput) (fresh : String) (now : ℕ) (t : Transfer)
    (id : String) (decision : ReviewDecision) (db : Register) {after : Register}
    → has_left id db ≡ true
    → (is_approve decision && is_some_eq t.from_enrolment_id id) ≡ true
    → reviewed_transfer auth input fresh now t decision db ≢ ok after
reviewed_transfer-again auth input fresh now t id reject db h n x = cc
reviewed_transfer-again auth input fresh now t id cancel db h n x = cc
reviewed_transfer-again auth input fresh now t id approve db h n x =
    let (w, completes, last) = >>=-eq-ok (complete_transfer auth input fresh now t db) _ x in
    complete_transfer-again auth input fresh now t id db h
      (is_some_eq-some t.from_enrolment_id id n) completes

review_transfer_request-again :
    (auth : Auth) (transfer : String) (input : ReviewTransferInput) (fresh : String) (now : ℕ)
    (id : String) (db : Register) {after : Register}
    → has_left id db ≡ true
    → (is_approve input.decision
        && if_some (lookup transfer db.transfers) false (λ t. is_some_eq t.from_enrolment_id id))
      ≡ true
    → review_transfer_request auth transfer (some input) fresh now db ≢ ok after
unfolding review_transfer_request
review_transfer_request-again auth transfer input fresh now id db h n x =
    let (t, found, a) = >>=-eq-ok (existing_transfer db transfer) _ x in
    let (allowed, b) = >>-eq-ok _ _ a in
    let (reviewable, c) = guarded-eq-ok _ _ _ b in
    reviewed_transfer-again auth input fresh now t id input.decision db h
      (rw (existing_transfer-eq-ok db transfer found) at n) c

ended_once :
    (op : Operation) (id : String) (db : Register) {after : Register}
    → has_left id db ≡ true
    → is_about id db op ≡ true
    → perform op db ≢ ok after
unfolding perform is_about
ended_once (confirming auth (some input) now fresh) id db h n x =
    confirm_rollover-again auth input now fresh id db h n x
ended_once (requesting_transfer auth (some input) fresh now) id db h n x =
    create_transfer_request-again auth input fresh now id db h n x
ended_once (reviewing_transfer auth transfer (some input) fresh now) id db h n x =
    review_transfer_request-again auth transfer input fresh now id db h n x
ended_once _ id db h n x = cc

-- Where an enrolment has ended, and rollover records name only ended enrolments, no operation that
-- follows any sequence of others is accepted if it is a rollover that names the enrolment, a request
-- to transfer it, or the approval of a transfer of it.
pub run-ended_once :
    (ops : List Operation) (op : Operation) (id : String) (db : Register) {after : Register}
    → IsClosed db
    → has_left id db ≡ true
    → is_about id (run ops db) op ≡ true
    → perform op (run ops db) ≢ ok after
run-ended_once ops op id db c h about x =
    ended_once op id (run ops db) ((run-Advances ops db c).keeps id h) about x
