-- ===== src/Academics/Reopened.antt =====
-- The requests to reopen a sealed session: at most one is open for a session.
use acadid.Common.{
  ℕ, ◌≤◌, String, Option, none, some, find, count, List, [], ◌∷◌, Bool, true, false, ◌≡◌, refl, sym,
  subst, inl, inr, ◌==◌, string_Eq, if_some, Bool-cases, arith,
}
use acadid.Common.Outcome.{ok, >>=-eq-ok, >>-eq-ok, guarded-eq-ok, ok-injective}
use acadid.Authority.{Auth}
use acadid.Academics.{Session, ReopenRequest, Register, audited}
use acadid.Academics.Reopen.{
  ReopenInput, ReviewReopenInput, is_open_for, active_session, open_reopen, reopen_row,
  reviewed_reopen, replace_reopen, unseal, request_sealed_session_reopen,
  review_sealed_session_reopen,
}
use acadid.Academics.Operations.{Operation, requesting_reopen, reviewing_reopen, perform}

-- At most one request is open for each session.
abbrev pub IsOnce : Register → Type 0
IsOnce db = (session : String) → count (is_open_for session) db.reopens ≤ 1

count-find :
    (p : ReopenRequest → Bool) (rs : List ReopenRequest) → find p rs ≡ none → count p rs ≡ 0
count-find p [] h = refl
count-find p (r ∷ rs) h = elim (Bool-cases (p r)) [
  | inl hit ↦ cc (rw hit at h)
  | inr miss ↦ rw miss (omega (arith, count-find p rs (rw miss at h)))
]

count-replace_reopen :
    (session : String) (row : ReopenRequest) (rs : List ReopenRequest)
    → is_open_for session row ≡ false
    → count (is_open_for session) (replace_reopen row rs) ≤ count (is_open_for session) rs
unfolding replace_reopen
count-replace_reopen session row [] over = omega arith
count-replace_reopen session row (r ∷ rs) over = elim (Bool-cases (r.uuid == row.uuid)) [
  | inl same ↦ rw (same, over) (omega (arith, count-replace_reopen session row rs over))
  | inr other ↦ rw other (omega (arith, count-replace_reopen session row rs over))
]

reviewed_reopen-closed :
    (auth : Auth) (input : ReviewReopenInput) (now : ℕ) (r : ReopenRequest) (session : String)
    → is_open_for session (reviewed_reopen auth input now r) ≡ false
unfolding reviewed_reopen
reviewed_reopen-closed auth input now r session = elim (Bool-cases input.approves) [
  | inl approved ↦ rw approved (ground arith)
  | inr refused ↦ rw refused (ground arith)
]

audited-IsOnce :
    (auth : Auth) (action target institution : String) (written : Register) {after : Register}
    → IsOnce written
    → ok (audited auth action target institution written) ≡ ok after
    → IsOnce after
unfolding audited
audited-IsOnce auth action target institution written h e = subst IsOnce (sym (ok-injective e)) h

asked-IsOnce :
    (row : ReopenRequest) (db : Register)
    → IsOnce db
    → find (is_open_for row.session_id) db.reopens ≡ none
    → (session : String) → count (is_open_for session) (row ∷ db.reopens) ≤ 1
asked-IsOnce row db h absent session = elim (Bool-cases (row.session_id == session)) [
  | inl same ↦
      let here = (string_Eq.beq_iff row.session_id session).0 same in
      ground (
        arith,
        count-find (is_open_for session) db.reopens
            (subst (λ x. find (is_open_for x) db.reopens ≡ none) here absent),
      )
  | inr other ↦ rw other (omega (arith, h session))
]

opened-IsOnce :
    (auth : Auth) (input : ReopenInput) (fresh : String) (now : ℕ) (s : Session) (db : Register)
    {after : Register} (o : Option ReopenRequest)
    → IsOnce db
    → open_reopen db s.uuid ≡ o
    → if_some o
        (ok (
          audited auth "academic_session.reopen_requested" fresh s.institution_id
            (record db { reopens = reopen_row auth input fresh now s ∷ db.reopens })))
        (λ r. ok db)
      ≡ ok after
    → IsOnce after
unfolding reopen_row
opened-IsOnce auth input fresh now s db none c e h =
    audited-IsOnce auth _ _ _
      (record db { reopens = reopen_row auth input fresh now s ∷ db.reopens })
      (asked-IsOnce (reopen_row auth input fresh now s) db c e) h
opened-IsOnce auth input fresh now s db (some r) c e h = subst IsOnce (sym (ok-injective h)) c

request-IsOnce :
    (auth : Auth) (id : String) (body : Option ReopenInput) (fresh : String) (now : ℕ)
    (db : Register) {after : Register}
    → IsOnce db
    → request_sealed_session_reopen auth id body fresh now db ≡ ok after
    → IsOnce after
unfolding request_sealed_session_reopen
request-IsOnce auth id none fresh now db c h = cc
request-IsOnce auth id (some input) fresh now db c h =
    let (human, a) = guarded-eq-ok _ _ _ h in
    let (s, found, b) = >>=-eq-ok (active_session db id) _ a in
    let (allowed, d) = >>-eq-ok _ _ b in
    let (closed, e) = guarded-eq-ok _ _ _ d in
    opened-IsOnce auth input fresh now s db (open_reopen db s.uuid) c refl e

replaced-IsOnce :
    (auth : Auth) (input : ReviewReopenInput) (now : ℕ) (r : ReopenRequest) (s : Session)
    (db : Register)
    → IsOnce db
    → IsOnce (record (unseal input s db) {
      reopens = replace_reopen (reviewed_reopen auth input now r) db.reopens;
    })
replaced-IsOnce auth input now r s db c session =
    let smaller =
      count-replace_reopen session (reviewed_reopen auth input now r) db.reopens
        (reviewed_reopen-closed auth input now r session) in
    omega (arith, smaller, c session)

review-IsOnce :
    (auth : Auth) (id : String) (body : Option ReviewReopenInput) (now : ℕ) (db : Register)
    {after : Register}
    → IsOnce db
    → review_sealed_session_reopen auth id body now db ≡ ok after
    → IsOnce after
unfolding review_sealed_session_reopen
review-IsOnce auth id none now db c h = cc
review-IsOnce auth id (some input) now db c h =
    let (founder, a) = guarded-eq-ok _ _ _ h in
    let (s, found, b) = >>=-eq-ok (active_session db id) _ a in
    let (closed, d) = guarded-eq-ok _ _ _ b in
    let (r, asked, last) = >>=-eq-ok (if_some (open_reopen db s.uuid) _ ok) _ d in
    audited-IsOnce auth _ _ _ _ (replaced-IsOnce auth input now r s db c) last

-- Whether the operation writes requests to reopen.
abbrev pub writes_reopens : Operation → Bool
writes_reopens (requesting_reopen auth id body fresh now) = true
writes_reopens (reviewing_reopen auth id body now) = true
writes_reopens _ = false

-- Where at most one request to reopen is open for each session, that stays so when one is requested
-- or reviewed.
pub perform-IsOnce :
    (op : Operation) (db : Register) {after : Register}
    → writes_reopens op ≡ true
    → IsOnce db
    → perform op db ≡ ok after
    → IsOnce after
unfolding perform
perform-IsOnce (requesting_reopen auth id body fresh now) db w c h =
    request-IsOnce auth id body fresh now db c h
perform-IsOnce (reviewing_reopen auth id body now) db w c h = review-IsOnce auth id body now db c h
perform-IsOnce _ db w c h = cc
