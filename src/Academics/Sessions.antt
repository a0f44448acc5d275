-- ===== src/Academics/Sessions.antt =====
-- `createAcademicSession` and `updateAcademicSession` of
-- apps/api/src/modules/gateway/ingestion/ingestion.service.ts, with the service's own
-- `resolveHumanInstitution`; its `isUuid` is that of governance.service.ts.
use acadid.Common.{
  ℕ, String, Option, none, some, coalesce, find, [], ◌∷◌, Bool, true, false, not, ◌&&◌, ◌||◌, ◌==◌,
  string_Eq, if_some, if◌then◌else◌,
}
use acadid.Common.Assoc.{Assoc, lookup, put}
use acadid.Common.Text.{trim}
use acadid.Common.Outcome.{
  Outcome, ok, throw, bad_request, forbidden, plain_error, refuse, ◌>>=◌, ◌>>◌,
}
use acadid.Authority.{
  Auth, is_role, acadid_super_admin, is_api_key, assert_actor_can_operate_institution,
}
use acadid.Authority.Grants.{Institution}
use acadid.Requests.Guards.{parsed_or}
use acadid.Academics.{PeriodType, term, semester, SessionStatus, Session, Register, audited}
use acadid.Academics.Guards.{is_referenced, active_institution}

pub record SessionInput : Type 0 where
  pub institution_id : String
  pub session_label : String
  pub period_type : PeriodType
  pub period_label : String
  pub start_date : Option ℕ
  pub end_date : Option ℕ
  pub status : SessionStatus
  pub is_current : Bool

-- A date that is `some none` is `null`.
pub record SessionChange : Type 0 where
  pub session_label : Option String
  pub period_type : Option PeriodType
  pub period_label : Option String
  pub start_date : Option (Option ℕ)
  pub end_date : Option (Option ℕ)
  pub status : Option SessionStatus
  pub is_current : Option Bool

abbrev pub is_term : PeriodType → Bool
is_term term = true
is_term semester = false

abbrev pub same_period : PeriodType → PeriodType → Bool
same_period a b = if is_term a then is_term b else not (is_term b)

-- `@@unique([institutionId, sessionLabel, periodType, periodLabel])`
abbrev pub same_session : Session → Session → Bool
same_session a b =
    (a.institution_id == b.institution_id)
    && ((a.session_label == b.session_label)
        && (same_period a.period_type b.period_type && (a.period_label == b.period_label)))

unfoldable pub is_taken : Session → Assoc String Session → Bool
is_taken s [] = false
is_taken s ((k, row) ∷ rows) = (not (k == s.uuid) && same_session row s) || is_taken s rows

unfoldable pub write_session : Session → Register → Outcome Register
write_session s db =
    refuse (is_taken s db.sessions) (
      plain_error
        "Unique constraint failed on institutionId, sessionLabel, periodType, periodLabel.")
    >> ok (record db { sessions = put s.uuid s db.sessions })

unfoldable pub create_session : Session → Register → Outcome Register
create_session s db =
    if_some (lookup s.uuid db.sessions) (write_session s db)
      (λ row. throw (plain_error "Unique constraint failed on uuid."))

abbrev pub is_current_of : String → Session → Bool
is_current_of institution s = (s.institution_id == institution) && s.is_current

-- `updateMany` of the institution's sessions that are current
unfoldable pub clear_current : String → Assoc String Session → Assoc String Session
clear_current institution [] = []
clear_current institution ((k, s) ∷ rows) =
    let rest = clear_current institution rows in
    (k, (if is_current_of institution s then record s { is_current = false } else s)) ∷ rest

-- `NOT: { uuid: id }`
unfoldable pub clear_others : String → String → Assoc String Session → Assoc String Session
clear_others institution id [] = []
clear_others institution id ((k, s) ∷ rows) =
    let rest = clear_others institution id rows in
    (
      k,
      (if is_current_of institution s && not (k == id) then record s { is_current = false } else s),
    )
    ∷ rest

abbrev pub cleared : Bool → String → Register → Register
cleared current institution db =
    if current then record db { sessions = clear_current institution db.sessions } else db

abbrev pub assert_reader : Register → Auth → String → Outcome (Unit {0})
assert_reader db auth institution =
    if is_role auth.role acadid_super_admin
    then ok tt
    else assert_actor_can_operate_institution db.users auth institution

-- `resolveReadableInstitution`
unfoldable pub resolve_readable_institution : Register → Auth → String → Outcome Institution
resolve_readable_institution db auth ref = do
  institution ← active_institution (find (is_referenced ref) db.institutions)
  assert_reader db auth institution.uuid
  ok institution

-- `resolveHumanInstitution`
unfoldable pub resolve_setup_institution : Register → Auth → String → Outcome Institution
resolve_setup_institution db auth ref = do
  refuse (is_api_key auth.kind)
      (forbidden "Human institution session is required for academic setup.")
  institution ← resolve_readable_institution db auth ref
  assert_actor_can_operate_institution db.users auth institution.uuid
  ok institution

unfoldable pub session_row : SessionInput → String → String → Session
session_row input fresh institution = record {
  uuid = fresh;
  institution_id = institution;
  session_label = trim input.session_label;
  period_type = input.period_type;
  period_label = trim input.period_label;
  start_date = input.start_date;
  end_date = input.end_date;
  status = input.status;
  is_current = input.is_current;
}

unfoldable pub create_academic_session :
    Auth → Option SessionInput → String → Register → Outcome Register
create_academic_session auth body fresh db = do
  input ← parsed_or body
  institution ← resolve_setup_institution db auth input.institution_id
  after ←
      create_session (session_row input fresh institution.uuid)
        (cleared input.is_current institution.uuid db)
  ok (audited auth "academic_session.create" fresh institution.uuid after)

abbrev pub trimmed_or : Option String → String → String
trimmed_or none s = s
trimmed_or (some t) s = trim t

unfoldable pub changed_session : SessionChange → Session → Session
changed_session input s = record {
  uuid = s.uuid;
  institution_id = s.institution_id;
  session_label = trimmed_or input.session_label s.session_label;
  period_type = coalesce input.period_type s.period_type;
  period_label = trimmed_or input.period_label s.period_label;
  start_date = coalesce input.start_date s.start_date;
  end_date = coalesce input.end_date s.end_date;
  status = coalesce input.status s.status;
  is_current = coalesce input.is_current s.is_current;
}

abbrev pub cleared_others : Bool → String → String → Register → Register
cleared_others current institution id db =
    if current then record db { sessions = clear_others institution id db.sessions } else db

unfoldable pub existing_session : Register → String → Outcome Session
existing_session db id =
    if_some (lookup id db.sessions) (throw (bad_request "Academic session not found.")) ok

unfoldable pub update_academic_session :
    Auth → String → Option SessionChange → Register → Outcome Register
update_academic_session auth id body db = do
  input ← parsed_or body
  existing ← existing_session db id
  institution ← resolve_setup_institution db auth existing.institution_id
  after ←
      write_session (changed_session input existing)
        (cleared_others (coalesce input.is_current false) existing.institution_id id db)
  ok (audited auth "academic_session.update" id existing.institution_id after)
