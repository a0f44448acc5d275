-- ===== src/Academics/Single.antt =====
-- The handlers of sessions keep at most one session of an institution current.
use acadid.Common.{
  ℕ, String, if_some, Option, none, some, coalesce, Bool, true, false, not, ◌&&◌, ◌≡◌, ◌≢◌, refl,
  sym, ap, ◌∙◌, subst, inl, inr, ◌==◌, string_Eq, Bool-cases, arith,
}
use acadid.Common.Assoc.{Assoc, lookup, beq_comm}
use acadid.Common.Outcome.{ok, >>=-eq-ok, guarded-eq-ok, absent-eq-ok, present-eq-ok, ok-injective}
use acadid.Authority.{Auth}
use acadid.Academics.{Session, Register, audited}
use acadid.Academics.Sessions.{
  SessionInput, SessionChange, is_current_of, cleared, cleared_others, session_row, changed_session,
  write_session, create_session, resolve_setup_institution, existing_session,
  create_academic_session, update_academic_session,
}
use acadid.Academics.Reopen.{
  ReviewReopenInput, active_session, open_reopen, unseal, review_sealed_session_reopen,
}
use acadid.Academics.Operations.{
  Operation, reviewing_reopen, creating_session, updating_session, perform,
}
use acadid.Academics.Current.{
  IsSingle, IsAlone, put-IsSingle, cleared_row-selected, clear_where-lookup, clear_where-IsSingle,
  clear_current-clear_where, clear_others-clear_where,
}

created-IsAlone :
    (row : Session) (db : Register)
    → IsAlone row (cleared row.is_current row.institution_id db).sessions
created-IsAlone row db k i t found other on = elim (Bool-cases row.is_current) [
  | inl current ↦
      let (old, stored, eq) =
        clear_where-lookup (λ k s. is_current_of row.institution_id s) k t db.sessions
          (rw (current, clear_current-clear_where row.institution_id db.sessions) at found) in
      let same = (string_Eq.beq_iff row.institution_id i).0 (ground arith) in
      subst (λ j. is_current_of j t ≡ false) same
        (subst (λ x. is_current_of row.institution_id x ≡ false) (sym eq)
          (cleared_row-selected (is_current_of row.institution_id old) row.institution_id old
            (λ h. h)))
  | inr idle ↦ ground arith
]

cleared-IsSingle :
    (b : Bool) (i : String) (db : Register)
    → IsSingle db.sessions
    → IsSingle (cleared b i db).sessions
cleared-IsSingle true i db h =
    subst IsSingle (sym (clear_current-clear_where i db.sessions))
      (clear_where-IsSingle _ db.sessions h)
cleared-IsSingle false i db h = h

-- A row that takes the place of one that was current wherever it is.
kept-IsAlone :
    (id : String) (s row : Session) (m : Assoc String Session)
    → IsSingle m
    → lookup id m ≡ some s
    → row.uuid ≡ s.uuid
    → ((i : String) → is_current_of i row ≡ true → is_current_of i s ≡ true)
    → IsAlone row m
kept-IsAlone id s row m h found same was k i t there other on =
    elim (Bool-cases (is_current_of i t)) [
      | inl both ↦
          let here =
            same ∙ h.keyed id s found ∙ h.one_current i id k s t found there (was i on) both in
          cc ((string_Eq.beq_iff row.uuid k).1 here, other)
      | inr off ↦ off
    ]

write_session-IsSingle :
    (s : Session) (db : Register) {after : Register}
    → IsSingle db.sessions
    → IsAlone s db.sessions
    → write_session s db ≡ ok after
    → IsSingle after.sessions
unfolding write_session
write_session-IsSingle s db h alone e =
    subst (λ x. IsSingle x.sessions) (sym (ok-injective ((guarded-eq-ok _ _ _ e).1)))
      (put-IsSingle s db.sessions h alone)

audited-sessions :
    (auth : Auth) (action target institution : String) (written : Register) {after : Register}
    → IsSingle written.sessions
    → ok (audited auth action target institution written) ≡ ok after
    → IsSingle after.sessions
unfolding audited
audited-sessions auth action target institution written h e =
    subst (λ x. IsSingle x.sessions) (sym (ok-injective e)) h

create_academic_session-IsSingle :
    (auth : Auth) (body : Option SessionInput) (fresh : String) (db : Register) {after : Register}
    → IsSingle db.sessions
    → create_academic_session auth body fresh db ≡ ok after
    → IsSingle after.sessions
unfolding create_academic_session create_session session_row
create_academic_session-IsSingle auth none fresh db c h = cc
create_academic_session-IsSingle auth (some input) fresh db c h =
    let (i, resolved, a) = >>=-eq-ok (resolve_setup_institution db auth input.institution_id) _ h in
    let row = session_row input fresh i.uuid in
    let (w, created, last) =
      >>=-eq-ok (create_session row (cleared input.is_current i.uuid db)) _ a in
    audited-sessions auth _ _ _ w
      (write_session-IsSingle row (cleared input.is_current i.uuid db)
        (cleared-IsSingle input.is_current i.uuid db c) (created-IsAlone row db)
        ((absent-eq-ok _ _ _ created).1))
      last

cleared_others-IsSingle :
    (b : Bool) (i id : String) (db : Register)
    → IsSingle db.sessions
    → IsSingle (cleared_others b i id db).sessions
cleared_others-IsSingle true i id db h =
    subst IsSingle (sym (clear_others-clear_where i id db.sessions))
      (clear_where-IsSingle _ db.sessions h)
cleared_others-IsSingle false i id db h = h

-- With every other session of the institution cleared.
others-IsAlone :
    (id : String) (row : Session) (db : Register)
    → row.uuid ≡ id
    → IsAlone row (cleared_others true row.institution_id id db).sessions
others-IsAlone id row db same k i t found other on =
    let (old, stored, eq) =
      clear_where-lookup (λ k s. is_current_of row.institution_id s && not (k == id)) k t
        db.sessions (rw (clear_others-clear_where row.institution_id id db.sessions) at found) in
    let away = subst (λ j. (k == j) ≡ false) same (beq_comm k row.uuid ∙ other) in
    subst (λ j. is_current_of j t ≡ false)
      ((string_Eq.beq_iff row.institution_id i).0 (ground arith))
      (subst (λ x. is_current_of row.institution_id x ≡ false) (sym eq)
        (cleared_row-selected _ row.institution_id old (λ h. rw (h, away) refl)))

not_idle : (b : Bool) → (b && false) ≢ true
not_idle true h = cc
not_idle false h = cc

changed-IsAlone :
    (id : String) (input : SessionChange) (s : Session) (db : Register) (current : Option Bool)
    → input.is_current ≡ current
    → IsSingle db.sessions
    → lookup id db.sessions ≡ some s
    → IsAlone
        (changed_session input s)
        (cleared_others (coalesce current false) s.institution_id id db).sessions
unfolding changed_session
changed-IsAlone id input s db none e h found =
    kept-IsAlone id s (changed_session input s) db.sessions h found refl (λ i on. rw e at on)
changed-IsAlone id input s db (some true) e h found =
    others-IsAlone id (changed_session input s) db (h.keyed id s found)
changed-IsAlone id input s db (some false) e h found =
    λ k i t there other on. elim (not_idle (s.institution_id == i) (rw e at on)) [ ]

update_academic_session-IsSingle :
    (auth : Auth) (id : String) (body : Option SessionChange) (db : Register) {after : Register}
    → IsSingle db.sessions
    → update_academic_session auth id body db ≡ ok after
    → IsSingle after.sessions
unfolding update_academic_session existing_session
update_academic_session-IsSingle auth id none db c h = cc
update_academic_session-IsSingle auth id (some input) db c h =
    let (s, exists, a) = >>=-eq-ok (existing_session db id) _ h in
    let (row, found, same) = present-eq-ok (lookup id db.sessions) _ ok exists in
    let stored = found ∙ ap some (sym (ok-injective same)) in
    let (i, resolved, b) = >>=-eq-ok (resolve_setup_institution db auth s.institution_id) _ a in
    let others = cleared_others (coalesce input.is_current false) s.institution_id id db in
    let (w, written, last) = >>=-eq-ok (write_session (changed_session input s) others) _ b in
    audited-sessions auth _ _ _ w
      (write_session-IsSingle (changed_session input s) others
        (cleared_others-IsSingle _ s.institution_id id db c)
        (changed-IsAlone id input s db input.is_current refl c stored) written)
      last

unseal-IsSingle :
    (input : ReviewReopenInput) (id : String) (s : Session) (db : Register)
    → IsSingle db.sessions
    → lookup id db.sessions ≡ some s
    → IsSingle (unseal input s db).sessions
unseal-IsSingle input id s db c found = elim (Bool-cases input.approves) [
  | inl approved ↦ rw approved (
      put-IsSingle (record s { status = input.new_status }) db.sessions c
        (kept-IsAlone id s (record s { status = input.new_status }) db.sessions c found refl
          (λ i on. on)))
  | inr refused ↦ rw refused c
]

active_session-eq-ok :
    (db : Register) (id : String) {s : Session}
    → active_session db id ≡ ok s
    → lookup id db.sessions ≡ some s
unfolding active_session
active_session-eq-ok db id {s} h =
    let (row, found, rest) = present-eq-ok (lookup id db.sessions) _ _ h in
    let (active, same) = guarded-eq-ok _ _ _ rest in found ∙ ap some (sym (ok-injective same))

review_sealed_session_reopen-IsSingle :
    (auth : Auth) (id : String) (body : Option ReviewReopenInput) (now : ℕ) (db : Register)
    {after : Register}
    → IsSingle db.sessions
    → review_sealed_session_reopen auth id body now db ≡ ok after
    → IsSingle after.sessions
unfolding review_sealed_session_reopen
review_sealed_session_reopen-IsSingle auth id none now db c h = cc
review_sealed_session_reopen-IsSingle auth id (some input) now db c h =
    let (founder, a) = guarded-eq-ok _ _ _ h in
    let (s, found, b) = >>=-eq-ok (active_session db id) _ a in
    let (closed, d) = guarded-eq-ok _ _ _ b in
    let (r, asked, last) = >>=-eq-ok (if_some (open_reopen db s.uuid) _ ok) _ d in
    audited-sessions auth _ _ _ _
      (unseal-IsSingle input id s db c (active_session-eq-ok db id found)) last

-- Whether the operation writes sessions.
abbrev pub writes_sessions : Operation → Bool
writes_sessions (reviewing_reopen auth id body now) = true
writes_sessions (creating_session auth body fresh) = true
writes_sessions (updating_session auth id body) = true
writes_sessions _ = false

-- Where at most one session of each institution is current, and each stands under its identifier,
-- that stays so when a session is created or updated or when a request to reopen one is reviewed.
pub perform-IsSingle :
    (op : Operation) (db : Register) {after : Register}
    → writes_sessions op ≡ true
    → IsSingle db.sessions
    → perform op db ≡ ok after
    → IsSingle after.sessions
unfolding perform
perform-IsSingle (reviewing_reopen auth id body now) db w c h =
    review_sealed_session_reopen-IsSingle auth id body now db c h
perform-IsSingle (creating_session auth body fresh) db w c h =
    create_academic_session-IsSingle auth body fresh db c h
perform-IsSingle (updating_session auth id body) db w c h =
    update_academic_session-IsSingle auth id body db c h
perform-IsSingle _ db w c h = cc
