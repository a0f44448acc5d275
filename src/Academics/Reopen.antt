-- ===== src/Academics/Reopen.antt =====
-- `requestSealedSessionReopen` and `reviewSealedSessionReopen` of
-- apps/api/src/modules/gateway/governance/governance.service.ts.
use acadid.Common.{
  ℕ, ◌+◌, String, Option, none, some, find, List, [], ◌∷◌, Bool, true, false, not, ◌&&◌, ◌==◌,
  string_Eq, if_some, if◌then◌else◌,
}
use acadid.Common.Assoc.{lookup, put}
use acadid.Common.Outcome.{Outcome, ok, throw, bad_request, forbidden, refuse, ◌>>=◌, ◌>>◌}
use acadid.Authority.{
  Auth, is_role, acadid_super_admin, is_api_key, assert_actor_can_operate_institution,
}
use acadid.Authority.Grants.{Institution}
use acadid.Requests.Guards.{parsed_or}
use acadid.Academics.{
  SessionStatus, is_sealed, ReopenStatus, reopen_requested, reopen_approved, reopen_rejected,
  Session, ReopenRequest, Register, audited,
}

pub record ReopenInput : Type 0 where
  pub reason : String
  pub requested_status : SessionStatus

pub record ReviewReopenInput : Type 0 where
  pub approves : Bool
  pub reason : String
  pub new_status : SessionStatus

abbrev pub is_requested : ReopenStatus → Bool
is_requested reopen_requested = true
is_requested _ = false

-- Whether the session's institution is active.
abbrev pub active_owner : Option Institution → Bool
active_owner none = false
active_owner (some i) = i.is_active

unfoldable pub active_session : Register → String → Outcome Session
active_session db id =
    if_some (lookup id db.sessions)
      (throw (bad_request "Active institution academic session not found."))
      (λ s.
        refuse (not (active_owner (find (λ i. i.uuid == s.institution_id) db.institutions)))
          (bad_request "Active institution academic session not found.")
        >> ok s)

abbrev pub is_open_for : String → ReopenRequest → Bool
is_open_for session r = (r.session_id == session) && is_requested r.status

abbrev pub open_reopen : Register → String → Option ReopenRequest
open_reopen db session = find (is_open_for session) db.reopens

-- 72 * 60 * 60 * 1000
abbrev pub reopen_period : ℕ
reopen_period = 259200000

unfoldable pub reopen_row : Auth → ReopenInput → String → ℕ → Session → ReopenRequest
reopen_row auth input fresh now s = record {
  uuid = fresh;
  institution_id = s.institution_id;
  session_id = s.uuid;
  requested_by_id = auth.institution_user_id;
  requested_status = input.requested_status;
  reason = input.reason;
  due_at = now + reopen_period;
  status = reopen_requested;
  reviewed_by_id = none;
  review_reason = none;
  reviewed_at = none;
}

-- The request that is open is returned again.
unfoldable pub request_sealed_session_reopen :
    Auth → String → Option ReopenInput → String → ℕ → Register → Outcome Register
request_sealed_session_reopen auth id body fresh now db = do
  input ← parsed_or body
  refuse (is_api_key auth.kind)
      (forbidden "Human institution session is required for sealed-session escalation.")
  s ← active_session db id
  assert_actor_can_operate_institution db.users auth s.institution_id
  refuse (not (is_sealed s.status))
      (bad_request "Only sealed academic sessions require reopen escalation.")
  if_some (open_reopen db s.uuid)
      (ok (
        audited auth "academic_session.reopen_requested" fresh s.institution_id
          (record db { reopens = reopen_row auth input fresh now s ∷ db.reopens })))
      (λ r. ok db)

unfoldable pub reviewed_reopen : Auth → ReviewReopenInput → ℕ → ReopenRequest → ReopenRequest
reviewed_reopen auth input now r = record r {
  status = if input.approves then reopen_approved else reopen_rejected;
  reviewed_by_id = some auth.sub;
  review_reason = some input.reason;
  reviewed_at = some now;
}

-- `update({ where: { uuid } })` on the requests.
unfoldable pub replace_reopen : ReopenRequest → List ReopenRequest → List ReopenRequest
replace_reopen row [] = []
replace_reopen row (r ∷ rs) =
    let rest = replace_reopen row rs in if r.uuid == row.uuid then row ∷ rest else r ∷ rest

abbrev pub unseal : ReviewReopenInput → Session → Register → Register
unseal input s db =
    if input.approves
    then record db { sessions = put s.uuid (record s { status = input.new_status }) db.sessions }
    else db

abbrev pub reopen_action : Bool → String
reopen_action true = "academic_session.reopen_approved"
reopen_action false = "academic_session.reopen_rejected"

unfoldable pub review_sealed_session_reopen :
    Auth → String → Option ReviewReopenInput → ℕ → Register → Outcome Register
review_sealed_session_reopen auth id body now db = do
  input ← parsed_or body
  refuse (not (is_role auth.role acadid_super_admin))
      (forbidden "Only Founder Admin can review sealed-session reopen requests.")
  s ← active_session db id
  refuse (not (is_sealed s.status))
      (bad_request "Only sealed academic sessions can be reviewed for reopen.")
  r ←
      if_some (open_reopen db s.uuid)
        (throw (bad_request "No open sealed-session reopen request found for this session.")) ok
  ok (
      audited auth (reopen_action input.approves) r.uuid s.institution_id
        (record (unseal input s db) {
          reopens = replace_reopen (reviewed_reopen auth input now r) db.reopens;
        }))
