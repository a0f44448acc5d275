-- ===== src/Academics/Advance.antt =====
-- Each handler of rollovers, transfers and disputes only moves enrolments forward.
use acadid.Common.{
  ℕ, suc, String, Option, none, some, List, [], ◌∷◌, true, false, ◌≡◌, refl, sym, subst, inl, inr,
  string_Eq, Bool-cases,
}
use acadid.Common.Assoc.{lookup}
use acadid.Common.Outcome.{
  ok, bad_request, >>=-eq-ok, >>-eq-ok, guarded-eq-ok, absent-eq-ok, present-eq-ok, ok-injective,
}
use acadid.Authority.{Auth}
use acadid.Authority.Grants.{Institution}
use acadid.Academics.{
  Decision, transfer_out, Enrolment, Transfer, Register, create_rollover, audited,
}
use acadid.Academics.Guards.{resolve_human_institution, continues}
use acadid.Academics.Rollover.{
  DecisionInput, RolloverInput, FreshRows, end_enrolment, rollover_row, begin_next, some_missing,
  some_duplicate, confirm_one, confirm_all, confirm_rollover,
}
use acadid.Academics.Transfers.{
  TransferInput, FreshTransfer, ReviewTransferInput, ReviewDecision, approve, reject, cancel,
  available_enrolment, target_institution, transfer_row, create_transfer, create_transfer_request,
  source_enrolment, session_of, transfer_rollover, complete_transfer, reviewed_transfer,
  existing_transfer, review_transfer_request,
}
use acadid.Academics.Left.{
  has_left, IsClosed, Advances, Advances-refl, Advances-trans, Advances-elsewhere,
  end_enrolment-Advances, end_enrolment-has_left, create_enrolment-Advances,
  create_rollover-Advances,
}

begin_next-Advances :
    (d : Decision) (next : Enrolment) (db : Register) {after : Register}
    → begin_next d next db ≡ ok after
    → Advances db after
begin_next-Advances d next db h = elim (Bool-cases (continues d)) [
  | inl on ↦ create_enrolment-Advances next db (rw on at h)
  | inr off ↦ subst (Advances db) (sym (ok-injective (rw off at h))) (Advances-refl db)
]

-- One decision ends its enrolment.
pub confirm_one-Advances :
    (auth : Auth) (institution : String) (input : RolloverInput) (now : ℕ) (fresh : FreshRows)
    (d : DecisionInput) (e : Enrolment) (db : Register) {after : Register}
    → IsClosed db
    → confirm_one auth institution input now fresh d e db ≡ ok after
    → Advances db after × (has_left e.uuid after ≡ true)
unfolding confirm_one rollover_row
confirm_one-Advances auth institution input now fresh d e db {after} sound h =
    let (a, ends, rest) = >>=-eq-ok (end_enrolment d.decision now e.uuid db) _ h in
    let (b, writes, begins) =
      >>=-eq-ok (create_rollover (rollover_row auth institution input d now fresh.rollover_id e) a)
        _ rest in
    let left = end_enrolment-has_left d.decision now e.uuid db sound ends in
    let f = create_rollover-Advances e.uuid _ a refl left writes in
    let g = begin_next-Advances d.decision _ b begins in
    (
      Advances-trans (end_enrolment-Advances d.decision now e.uuid db ends) (Advances-trans f g),
      g.keeps e.uuid (f.keeps e.uuid left),
    )

pub confirm_all-Advances :
    (auth : Auth) (institution : String) (input : RolloverInput) (now : ℕ) (before : Register)
    (fresh : ℕ → FreshRows) (i : ℕ) (ds : List DecisionInput) (db : Register) {after : Register}
    → IsClosed db
    → confirm_all auth institution input now before fresh i ds db ≡ ok after
    → Advances db after
unfolding confirm_all
confirm_all-Advances auth institution input now before fresh i [] db sound h =
    subst (Advances db) (sym (ok-injective h)) (Advances-refl db)
confirm_all-Advances auth institution input now before fresh i (d ∷ ds) db sound h =
    let (e, found, rest) =
      present-eq-ok (lookup d.enrolment_id before.enrolments)
        (bad_request "Rollover decision references an unknown enrolment.") _ h in
    let (next, one, all) =
      >>=-eq-ok (confirm_one auth institution input now (fresh i) d e db) _ rest in
    let (step, left) = confirm_one-Advances auth institution input now (fresh i) d e db sound one in
    Advances-trans step (
      confirm_all-Advances auth institution input now before fresh (suc i) ds next
        (step.sound sound) all)

pub audited-Advances :
    (auth : Auth) (action target institution : String) {db after last : Register}
    → Advances db after
    → ok (audited auth action target institution after) ≡ ok last
    → Advances db last
unfolding audited
audited-Advances auth action target institution {db} {after} {last} step h =
    subst (Advances db) (sym (ok-injective h)) (Advances-trans step (Advances-elsewhere refl refl))

-- What a confirmation has checked when it is not refused, and what it leaves.
pub record Confirmed (auth : Auth) (input : RolloverInput) (now : ℕ) (fresh : ℕ → FreshRows)
    (db after : Register) : Type 0 where
  pub institution : Institution
  pub written : Register
  pub none_missing : some_missing db institution.uuid input input.decisions ≡ false
  pub none_duplicate : some_duplicate db input.from_session_id input.decisions ≡ false
  pub confirms :
      confirm_all auth institution.uuid input now db fresh 0 input.decisions db ≡ ok written
  pub audits :
      ok (audited auth "rollover.confirm" input.from_session_id institution.uuid written) ≡ ok after

pub confirm_rollover-Confirmed :
    (auth : Auth) (input : RolloverInput) (now : ℕ) (fresh : ℕ → FreshRows) (db : Register)
    {after : Register}
    → confirm_rollover auth (some input) now fresh db ≡ ok after
    → Confirmed auth input now fresh db after
unfolding confirm_rollover
confirm_rollover-Confirmed auth input now fresh db h =
    let (i, resolved, a) = >>=-eq-ok (resolve_human_institution db auth input.institution_id) _ h in
    let (scoped, b) = >>-eq-ok _ _ a in
    let (found, c) = guarded-eq-ok _ _ _ b in
    let (single, d) = guarded-eq-ok _ _ _ c in
    let (targets, e) = >>-eq-ok _ _ d in
    let (w, all, last) =
      >>=-eq-ok (confirm_all auth i.uuid input now db fresh 0 input.decisions db) _ e in
    record {
      institution = i;
      written = w;
      none_missing = found;
      none_duplicate = single;
      confirms = all;
      audits = last;
    }

pub confirm_rollover-Advances :
    (auth : Auth) (body : Option RolloverInput) (now : ℕ) (fresh : ℕ → FreshRows) (db : Register)
    {after : Register}
    → IsClosed db
    → confirm_rollover auth body now fresh db ≡ ok after
    → Advances db after
unfolding confirm_rollover
confirm_rollover-Advances auth none now fresh db sound h = cc
confirm_rollover-Advances auth (some input) now fresh db sound h =
    let c = confirm_rollover-Confirmed auth input now fresh db h in
    audited-Advances auth _ _ _
      (confirm_all-Advances auth c.institution.uuid input now db fresh 0 input.decisions db sound
        c.confirms)
      c.audits

pub create_transfer_request-Advances :
    (auth : Auth) (body : Option TransferInput) (fresh : FreshTransfer) (now : ℕ) (db : Register)
    {after : Register}
    → create_transfer_request auth body fresh now db ≡ ok after
    → Advances db after
unfolding create_transfer_request create_transfer
create_transfer_request-Advances auth none fresh now db h = cc
create_transfer_request-Advances auth (some input) fresh now db h =
    let (i, resolved, a) = >>=-eq-ok (resolve_human_institution db auth input.institution_id) _ h in
    let (e, available, b) = >>=-eq-ok (available_enrolment _ i.uuid db input.enrolment_id) _ a in
    let (target, active, c) = >>=-eq-ok (target_institution db input.to_institution_id) _ b in
    let (other, d) = guarded-eq-ok _ _ _ c in
    let row = transfer_row auth input fresh now db i.uuid target e in
    let (w, created, last) = >>=-eq-ok (create_transfer row db) _ d in
    audited-Advances auth _ _ _
      (subst (Advances db) (sym (ok-injective ((absent-eq-ok _ _ _ created).1)))
        (Advances-elsewhere refl refl))
      last

-- An approval ends the enrolment that the transfer names.
pub complete_transfer-Advances :
    (auth : Auth) (input : ReviewTransferInput) (fresh : String) (now : ℕ) (t : Transfer)
    (db : Register) {after : Register}
    → IsClosed db
    → complete_transfer auth input fresh now t db ≡ ok after
    → Advances db after
unfolding complete_transfer transfer_rollover
complete_transfer-Advances auth input fresh now t db sound h =
    let (e, available, a) = >>=-eq-ok (source_enrolment db t) _ h in
    let (b, ends, c) = >>=-eq-ok (end_enrolment transfer_out now e.uuid db) _ a in
    let (session, known, d) = >>=-eq-ok (session_of t e) _ c in
    let (w, writes, last) =
      >>=-eq-ok (create_rollover (transfer_rollover auth input now fresh t e session) b) _ d in
    let left = end_enrolment-has_left transfer_out now e.uuid db sound ends in
    let f = create_rollover-Advances e.uuid _ b refl left writes in
    subst (Advances db) (sym (ok-injective last)) (
      Advances-trans (end_enrolment-Advances transfer_out now e.uuid db ends)
        (Advances-trans f (Advances-elsewhere refl refl)))

reviewed_transfer-Advances :
    (auth : Auth) (input : ReviewTransferInput) (fresh : String) (now : ℕ) (t : Transfer)
    (decision : ReviewDecision) (db : Register) {after : Register}
    → IsClosed db
    → reviewed_transfer auth input fresh now t decision db ≡ ok after
    → Advances db after
reviewed_transfer-Advances auth input fresh now t reject db sound h =
    audited-Advances auth _ _ _ (Advances-elsewhere refl refl) h
reviewed_transfer-Advances auth input fresh now t cancel db sound h =
    audited-Advances auth _ _ _ (Advances-elsewhere refl refl) h
reviewed_transfer-Advances auth input fresh now t approve db sound h =
    let (w, completes, last) = >>=-eq-ok (complete_transfer auth input fresh now t db) _ h in
    audited-Advances auth _ _ _
      (complete_transfer-Advances auth input fresh now t db sound completes) last

pub review_transfer_request-Advances :
    (auth : Auth) (id : String) (body : Option ReviewTransferInput) (fresh : String) (now : ℕ)
    (db : Register) {after : Register}
    → IsClosed db
    → review_transfer_request auth id body fresh now db ≡ ok after
    → Advances db after
unfolding review_transfer_request
review_transfer_request-Advances auth id none fresh now db sound h = cc
review_transfer_request-Advances auth id (some input) fresh now db sound h =
    let (t, found, a) = >>=-eq-ok (existing_transfer db id) _ h in
    let (allowed, b) = >>-eq-ok _ _ a in
    let (reviewable, c) = guarded-eq-ok _ _ _ b in
    reviewed_transfer-Advances auth input fresh now t input.decision db sound c
