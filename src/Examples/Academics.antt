-- ===== src/Examples/Academics.antt =====
-- A school whose student is promoted at the end of one session (governance.service.ts).
use acadid.Common.{ℕ, String, none, some, [], ◌∷◌, All, true, false, ◌≡◌, ◌≢◌, refl, string_Eq}
use acadid.Common.Text.{is_uuid, is_uuid_from, is_uuid_char, is_hex}
use acadid.Common.Assoc.{lookup, put, remove}
use acadid.Common.Outcome.{ok}
use acadid.Authority.{Auth, acadid_super_admin, user, assert_actor_can_operate_institution}
use acadid.Authority.Grants.{Institution}
use acadid.Academics.{
  active, promoted, promote, session_active, Enrolment, Session, term, Register, is_occupied,
  write_enrolment, create_enrolment, create_rollover, audited,
}
use acadid.Academics.Guards.{
  is_ref_uuid, is_ref_from, is_ref_char, is_referenced, resolve_human_institution,
  assert_rollover_scope, assert_decision_target,
}
use acadid.Academics.Rollover.{
  DecisionInput, RolloverInput, FreshRows, in_scope, is_missing, ended, rollover_row,
  next_enrolment, end_enrolment, confirm_one, confirm_all, confirm_rollover,
}
use acadid.Academics.Sessions.{SessionChange, update_academic_session}
use acadid.Academics.Left.{has_left, IsClosed, Advances, put_new-Advances}
use acadid.Academics.Operations.{confirming, perform, run, settle, run-Advances}
use acadid.Academics.Rolled.{is_about, confirm_rollover-has_left, run-ended_once}
use acadid.Academics.Twice.{confirm_rollover-clash}
use acadid.Academics.References.{is_ref_uuid-is_uuid, update_academic_session-by_uuid}

abbrev pub founder : Auth
founder = record {
  sub = "f1";
  role = acadid_super_admin;
  kind = user;
  institution_uuid = none;
  institution_user_id = none;
  api_key_id = none;
}

abbrev pub school_id : String
school_id = "0b3f1c9a-5d2e-4f70-8a61-9c2d7e4b1a55"

abbrev school : Institution
school = record { uuid = school_id; institution_id = "ACI-1"; is_active = true; grants = [] }

abbrev pub year : String → Session
year id = record {
  uuid = id;
  institution_id = school_id;
  session_label = id;
  period_type = term;
  period_label = "First";
  start_date = none;
  end_date = none;
  status = session_active;
  is_current = false;
}

abbrev student : Enrolment
student = record {
  uuid = "e1";
  learner_id = "l1";
  institution_id = school_id;
  academic_session_id = some "s1";
  structure_scope_id = none;
  student_number = "N-1";
  level = "SS1";
  programme = "Science";
  entry_date = 0;
  exit_date = none;
  exit_type = none;
  status = active;
}

abbrev pub empty : Register
empty = record {
  institutions = school ∷ [];
  official_names = [];
  users = [];
  sessions = ("s1", year "s1") ∷ ("s2", year "s2") ∷ [];
  structures = [];
  enrolments = [];
  rollovers = [];
  transfers = [];
  disputes = [];
  reopens = [];
  audit = [];
}

abbrev pub enrolled : Register
enrolled = record empty { enrolments = put "e1" student empty.enrolments }

-- The student was promoted before, and stands in the next session.
abbrev graduate_of_s0 : Enrolment
graduate_of_s0 = record student { uuid = "e0"; academic_session_id = some "s0"; status = promoted }

abbrev promoted_before : Register
promoted_before = record enrolled { enrolments = put "e0" graduate_of_s0 enrolled.enrolments }

empty-IsClosed : IsClosed empty
unfolding lookup
empty-IsClosed = record { keyed = λ k e h. cc; closed = λ k id r h n. cc }

enrolled-IsClosed : IsClosed enrolled
unfolding lookup
enrolled-IsClosed = (put_new-Advances student empty refl).sound empty-IsClosed

promoted_before-IsClosed : IsClosed promoted_before
unfolding lookup put remove
promoted_before-IsClosed = (put_new-Advances graduate_of_s0 enrolled refl).sound enrolled-IsClosed

abbrev promotion : DecisionInput
promotion = record {
  enrolment_id = "e1";
  decision = promote;
  to_session_id = none;
  to_structure_id = none;
  reason = none;
}

abbrev rollover : RolloverInput
rollover = record {
  institution_id = "ACI-1";
  from_session_id = "s1";
  to_session_id = some "s2";
  from_structure_id = none;
  to_structure_id = none;
  decisions = promotion ∷ [];
}

abbrev fresh_rows : ℕ → FreshRows
fresh_rows i = record { rollover_id = "r1"; enrolment_id = "e2" }

abbrev rolled : Register
rolled = settle enrolled (confirm_rollover founder (some rollover) 9 fresh_rows enrolled)

confirms : confirm_rollover founder (some rollover) 9 fresh_rows enrolled ≡ ok rolled
unfolding confirm_rollover resolve_human_institution is_referenced is_ref_uuid is_ref_from
    is_ref_char is_hex assert_actor_can_operate_institution assert_rollover_scope
    assert_decision_target is_missing in_scope confirm_all confirm_one end_enrolment ended
    write_enrolment is_occupied lookup put remove create_rollover rollover_row create_enrolment
    next_enrolment audited
confirms = refl

run-Advances_example :
    Advances enrolled (run (confirming founder (some rollover) 9 fresh_rows ∷ []) enrolled)
run-Advances_example =
    run-Advances (confirming founder (some rollover) 9 fresh_rows ∷ []) enrolled enrolled-IsClosed

confirm_rollover-has_left_example :
    All (λ d. has_left d.enrolment_id rolled ≡ true) rollover.decisions
confirm_rollover-has_left_example =
    confirm_rollover-has_left founder rollover 9 fresh_rows enrolled enrolled-IsClosed confirms

again :
    is_about "e0" (run (confirming founder (some rollover) 9 fresh_rows ∷ []) promoted_before) (
      confirming founder
        (some (record rollover { decisions = record promotion { enrolment_id = "e0" } ∷ [] }))
        9
        fresh_rows)
    ≡ true
unfolding is_about
again = refl

was_promoted : has_left "e0" promoted_before ≡ true
unfolding has_left lookup put remove
was_promoted = refl

run-ended_once_example :
    perform
      (confirming founder
        (some (record rollover { decisions = record promotion { enrolment_id = "e0" } ∷ [] }))
        9
        fresh_rows)
      (run (confirming founder (some rollover) 9 fresh_rows ∷ []) promoted_before)
    ≢ ok empty
run-ended_once_example =
    run-ended_once (confirming founder (some rollover) 9 fresh_rows ∷ [])
      (confirming founder
        (some (record rollover { decisions = record promotion { enrolment_id = "e0" } ∷ [] })) 9
        fresh_rows)
      "e0" promoted_before promoted_before-IsClosed was_promoted again

stands_at :
    (lookup "e1" promoted_before.enrolments ≡ some student)
    × (lookup "e0" promoted_before.enrolments ≡ some graduate_of_s0)
unfolding lookup put remove
stands_at = (refl, refl)

confirm_rollover-clash_example :
    confirm_rollover founder (some rollover) 9 fresh_rows promoted_before ≢ ok empty
confirm_rollover-clash_example =
    confirm_rollover-clash founder rollover 9 fresh_rows promotion [] student graduate_of_s0 "e0"
      promoted_before promoted_before-IsClosed refl stands_at.0 stands_at.1 refl refl refl refl

school-is_uuid : is_uuid school_id ≡ true
unfolding is_uuid is_uuid_from is_uuid_char is_hex
school-is_uuid = refl

is_ref_uuid-is_uuid_example : is_ref_uuid school_id ≡ false
is_ref_uuid-is_uuid_example = is_ref_uuid-is_uuid school_id school-is_uuid

abbrev relabel : SessionChange
relabel = record {
  session_label = some "2026/27";
  period_type = none;
  period_label = none;
  start_date = none;
  end_date = none;
  status = none;
  is_current = none;
}

first_year : lookup "s1" enrolled.sessions ≡ some (year "s1")
unfolding lookup
first_year = refl

plain_name : is_uuid "ACI-1" ≡ false
unfolding is_uuid is_uuid_from is_uuid_char is_hex
plain_name = refl

update_academic_session-by_uuid_example :
    update_academic_session founder "s1" (some relabel) enrolled ≢ ok enrolled
update_academic_session-by_uuid_example =
    update_academic_session-by_uuid founder "s1" (some relabel) (year "s1") enrolled first_year
      school-is_uuid (plain_name, tt)
