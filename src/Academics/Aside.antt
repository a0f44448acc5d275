-- ===== src/Academics/Aside.antt =====
-- The handlers of disputes, of sealed sessions and of sessions end no enrolment.
use acadid.Common.{
  ℕ, String, coalesce, if_some, Option, none, some, List, ◌∷◌, Bool, true, false, ◌≡◌, refl, sym,
  ap, ◌∙◌, subst, inl, inr, string_Eq, Bool-cases,
}
use acadid.Common.Assoc.{lookup, put, lookup-put_cases}
use acadid.Common.Outcome.{
  ok, >>=-eq-ok, >>-eq-ok, guarded-eq-ok, absent-eq-ok, present-eq-ok, ok-injective,
}
use acadid.Authority.{Auth}
use acadid.Academics.{Session, ReopenRequest, RolloverRecord, Transfer, Register, audited}
use acadid.Academics.Disputes.{
  DisputeInput, existing_rollover, disputed_rollover, resolved_rollover, create_dispute,
  dispute_row, dispute_of, with_transfer, create_rollover_dispute, resolve_rollover_dispute,
}
use acadid.Academics.Reopen.{
  ReopenInput, ReviewReopenInput, active_session, open_reopen, unseal, reopen_row,
  request_sealed_session_reopen, review_sealed_session_reopen,
}
use acadid.Academics.Sessions.{
  SessionInput, SessionChange, session_row, cleared, cleared_others, changed_session, write_session,
  create_session, resolve_setup_institution, existing_session, create_academic_session,
  update_academic_session,
}
use acadid.Academics.Left.{
  has_left-same, Advances, Advances-refl, Advances-trans, Advances-elsewhere,
}
use acadid.Academics.Advance.{audited-Advances}

-- An update of a stored record that leaves its enrolment.
update_rollover-Advances :
    (id : String) (r row : RolloverRecord) (db after : Register)
    → lookup id db.rollovers ≡ some r
    → row.enrolment_id ≡ r.enrolment_id
    → after.enrolments ≡ db.enrolments
    → after.rollovers ≡ put row.uuid row db.rollovers
    → Advances db after
update_rollover-Advances id r row db after found same es rs = record {
  keeps = λ i h. has_left-same i db after es ∙ h;
  sound = λ h. record {
    keyed = λ k e there. h.keyed k e (rw es at there);
    closed = λ k i s there named.
        has_left-same i db after es
        ∙ elim (lookup-put_cases row.uuid k row db.rollovers (rw rs at there)) [
          | inl (key, new) ↦
              h.closed id i r found (sym same ∙ ap (λ x. x.enrolment_id) (sym new) ∙ named)
          | inr (other, old) ↦ h.closed k i s old named
        ];
  };
}

with_transfer-enrolments :
    (t : Option Transfer) (f : Transfer → Transfer) (db : Register)
    → (with_transfer t f db).enrolments ≡ db.enrolments
unfolding with_transfer
with_transfer-enrolments none f db = refl
with_transfer-enrolments (some t) f db = refl

with_transfer-rollovers :
    (t : Option Transfer) (f : Transfer → Transfer) (db : Register)
    → (with_transfer t f db).rollovers ≡ db.rollovers
unfolding with_transfer
with_transfer-rollovers none f db = refl
with_transfer-rollovers (some t) f db = refl

existing_rollover-eq-ok :
    (db : Register) (id : String) {r : RolloverRecord}
    → existing_rollover db id ≡ ok r
    → lookup id db.rollovers ≡ some r
unfolding existing_rollover
existing_rollover-eq-ok db id {r} h =
    let (row, found, same) = present-eq-ok (lookup id db.rollovers) _ ok h in
    found ∙ ap some (sym (ok-injective same))

pub create_rollover_dispute-Advances :
    (auth : Auth) (id : String) (body : Option DisputeInput) (fresh : String) (now : ℕ)
    (db : Register) {after : Register}
    → create_rollover_dispute auth id body fresh now db ≡ ok after
    → Advances db after
unfolding create_rollover_dispute create_dispute disputed_rollover
create_rollover_dispute-Advances auth id none fresh now db h = cc
create_rollover_dispute-Advances auth id (some input) fresh now db h =
    let (r, found, a) = >>=-eq-ok (existing_rollover db id) _ h in
    let (allowed, b) = >>-eq-ok _ _ a in
    let (free, c) = guarded-eq-ok _ _ _ b in
    let (w, created, last) = >>=-eq-ok (create_dispute (dispute_row input fresh r) db) _ c in
    let same = ok-injective ((absent-eq-ok _ _ _ created).1) in
    audited-Advances auth _ _ _
      (update_rollover-Advances id r (disputed_rollover now fresh r) db _
        (existing_rollover-eq-ok db id found) refl
        (with_transfer-enrolments _ _ _ ∙ ap (λ x. x.enrolments) same)
        (with_transfer-rollovers _ _ _
          ∙ ap (λ x. put r.uuid (disputed_rollover now fresh r) x.rollovers) same))
      last

pub resolve_rollover_dispute-Advances :
    (auth : Auth) (id : String) (body : Option String) (now : ℕ) (db : Register) {after : Register}
    → resolve_rollover_dispute auth id body now db ≡ ok after
    → Advances db after
unfolding resolve_rollover_dispute resolved_rollover
resolve_rollover_dispute-Advances auth id none now db h = cc
resolve_rollover_dispute-Advances auth id (some note) now db h =
    let (r, found, a) = >>=-eq-ok (existing_rollover db id) _ h in
    let (allowed, b) = >>-eq-ok _ _ a in
    let (d, linked, last) = >>=-eq-ok (dispute_of db r.dispute_id) _ b in
    audited-Advances auth _ _ _
      (update_rollover-Advances id r (resolved_rollover note r) db _
        (existing_rollover-eq-ok db id found) refl (with_transfer-enrolments _ _ _)
        (with_transfer-rollovers _ _ _))
      last

-- A write that is made only where no row is there.
once-Advances {ℓ} :
    {A : Type ℓ} (o : Option A) (db written : Register) {after : Register}
    → Advances db written
    → if_some o (ok written) (λ r. ok db) ≡ ok after
    → Advances db after
once-Advances none db written step h = subst (Advances db) (sym (ok-injective h)) step
once-Advances (some r) db written step h =
    subst (Advances db) (sym (ok-injective h)) (Advances-refl db)

pub request_sealed_session_reopen-Advances :
    (auth : Auth) (id : String) (body : Option ReopenInput) (fresh : String) (now : ℕ)
    (db : Register) {after : Register}
    → request_sealed_session_reopen auth id body fresh now db ≡ ok after
    → Advances db after
unfolding request_sealed_session_reopen
request_sealed_session_reopen-Advances auth id none fresh now db h = cc
request_sealed_session_reopen-Advances auth id (some input) fresh now db {after} h =
    let (human, a) = guarded-eq-ok _ _ _ h in
    let (s, found, b) = >>=-eq-ok (active_session db id) _ a in
    let (allowed, c) = >>-eq-ok _ _ b in
    let (closed, d) = guarded-eq-ok _ _ _ c in
    once-Advances (open_reopen db s.uuid) db
      (audited auth "academic_session.reopen_requested" fresh s.institution_id
        (record db { reopens = reopen_row auth input fresh now s ∷ db.reopens }))
      (audited-Advances auth _ _ _ (Advances-elsewhere refl refl) refl) d

unsealed-Advances :
    (input : ReviewReopenInput) (s : Session) (db : Register) (rows : List ReopenRequest)
    → Advances db (record (unseal input s db) { reopens = rows })
unsealed-Advances input s db rows = elim (Bool-cases input.approves) [
  | inl yes_it ↦ rw yes_it (Advances-elsewhere refl refl)
  | inr no_it ↦ rw no_it (Advances-elsewhere refl refl)
]

pub review_sealed_session_reopen-Advances :
    (auth : Auth) (id : String) (body : Option ReviewReopenInput) (now : ℕ) (db : Register)
    {after : Register}
    → review_sealed_session_reopen auth id body now db ≡ ok after
    → Advances db after
unfolding review_sealed_session_reopen
review_sealed_session_reopen-Advances auth id none now db h = cc
review_sealed_session_reopen-Advances auth id (some input) now db h =
    let (founder, a) = guarded-eq-ok _ _ _ h in
    let (s, found, b) = >>=-eq-ok (active_session db id) _ a in
    let (closed, c) = guarded-eq-ok _ _ _ b in
    let (r, asked, last) = >>=-eq-ok (if_some (open_reopen db s.uuid) _ ok) _ c in
    audited-Advances auth _ _ _ (unsealed-Advances input s db _) last

write_session-Advances :
    (s : Session) (db : Register) {after : Register}
    → write_session s db ≡ ok after
    → Advances db after
unfolding write_session
write_session-Advances s db h =
    subst (Advances db) (sym (ok-injective ((guarded-eq-ok _ _ _ h).1)))
      (Advances-elsewhere refl refl)

cleared-Advances :
    (current : Bool) (institution : String) (db : Register)
    → Advances db (cleared current institution db)
cleared-Advances true institution db = Advances-elsewhere refl refl
cleared-Advances false institution db = Advances-refl db

cleared_others-Advances :
    (current : Bool) (institution id : String) (db : Register)
    → Advances db (cleared_others current institution id db)
cleared_others-Advances true institution id db = Advances-elsewhere refl refl
cleared_others-Advances false institution id db = Advances-refl db

pub create_academic_session-Advances :
    (auth : Auth) (body : Option SessionInput) (fresh : String) (db : Register) {after : Register}
    → create_academic_session auth body fresh db ≡ ok after
    → Advances db after
unfolding create_academic_session create_session
create_academic_session-Advances auth none fresh db h = cc
create_academic_session-Advances auth (some input) fresh db h =
    let (i, resolved, a) = >>=-eq-ok (resolve_setup_institution db auth input.institution_id) _ h in
    let (w, created, last) =
      >>=-eq-ok
        (create_session (session_row input fresh i.uuid) (cleared input.is_current i.uuid db)) _
        a in
    audited-Advances auth _ _ _
      (Advances-trans (cleared-Advances input.is_current i.uuid db)
        (write_session-Advances _ _ ((absent-eq-ok _ _ _ created).1)))
      last

pub update_academic_session-Advances :
    (auth : Auth) (id : String) (body : Option SessionChange) (db : Register) {after : Register}
    → update_academic_session auth id body db ≡ ok after
    → Advances db after
unfolding update_academic_session
update_academic_session-Advances auth id none db h = cc
update_academic_session-Advances auth id (some input) db h =
    let (s, found, a) = >>=-eq-ok (existing_session db id) _ h in
    let (i, resolved, b) = >>=-eq-ok (resolve_setup_institution db auth s.institution_id) _ a in
    let others = cleared_others (coalesce input.is_current false) s.institution_id id db in
    let (w, written, last) = >>=-eq-ok (write_session (changed_session input s) others) _ b in
    audited-Advances auth _ _ _
      (Advances-trans (cleared_others-Advances _ _ _ _) (write_session-Advances _ _ written)) last
