-- ===== src/Academics/Rollover.antt =====
-- `confirmRollover`, `levelForTargetStructure` and what a decision makes of an enrolment
-- (apps/api/src/modules/gateway/governance/governance.service.ts). A handler takes the outcome of
-- the schema's `safeParse` (`none` where it fails), the clock, and the identifiers of the rows that
-- it creates. Its writes are one transaction: where one is refused, nothing is written.
use acadid.Common.{
  ℕ, suc, String, Option, none, some, coalesce, List, [], ◌∷◌, Bool, true, false, not, ◌&&◌, ◌||◌,
  ◌==◌, string_Eq, if_some, if◌then◌else◌,
}
use acadid.Common.Assoc.{Assoc, lookup}
use acadid.Common.Outcome.{Outcome, ok, throw, bad_request, refuse, ◌>>=◌, ◌>>◌}
use acadid.Authority.{Auth, is_some_eq}
use acadid.Requests.Guards.{or_else, parsed_or}
use acadid.Academics.{
  EnrolmentStatus, active, promoted, repeated, transferred_out, withdrawn, graduated, suspended,
  sealed_enrolment, is_active, Decision, promote, repeat, transfer_out, withdraw, graduate, suspend,
  seal, ExitType, exit_transfer, exit_withdraw, exit_graduate, RolloverStatus, pending_record,
  approved_record, Enrolment, Structure, RolloverRecord, Register, write_enrolment,
  create_enrolment, create_rollover, audited,
}
use acadid.Academics.Guards.{
  continues, resolve_human_institution, assert_rollover_scope, assert_decision_target,
}

pub record DecisionInput : Type 0 where
  pub enrolment_id : String
  pub decision : Decision
  pub to_session_id : Option String
  pub to_structure_id : Option String
  pub reason : Option String

pub record RolloverInput : Type 0 where
  pub institution_id : String
  pub from_session_id : String
  pub to_session_id : Option String
  pub from_structure_id : Option String
  pub to_structure_id : Option String
  pub decisions : List DecisionInput

-- The identifiers of the rows that one decision creates.
pub record FreshRows : Type 0 where
  pub rollover_id : String
  pub enrolment_id : String

-- `enrolmentStatusForDecision`
abbrev pub status_for_decision : Decision → EnrolmentStatus
status_for_decision promote = promoted
status_for_decision repeat = repeated
status_for_decision transfer_out = transferred_out
status_for_decision withdraw = withdrawn
status_for_decision graduate = graduated
status_for_decision suspend = suspended
status_for_decision seal = sealed_enrolment

-- `terminalDecision`
abbrev pub is_terminal : Decision → Bool
is_terminal transfer_out = true
is_terminal withdraw = true
is_terminal graduate = true
is_terminal _ = false

abbrev pub exit_type_for_decision : Decision → Option ExitType
exit_type_for_decision transfer_out = some exit_transfer
exit_type_for_decision withdraw = some exit_withdraw
exit_type_for_decision graduate = some exit_graduate
exit_type_for_decision _ = none

abbrev pub is_repeat : Decision → Bool
is_repeat repeat = true
is_repeat _ = false

abbrev pub target_session : RolloverInput → DecisionInput → Option String
target_session input d = or_else d.to_session_id input.to_session_id

abbrev pub requested_structure : RolloverInput → DecisionInput → Option String
requested_structure input d = or_else d.to_structure_id input.to_structure_id

abbrev pub target_structure : RolloverInput → DecisionInput → Enrolment → Option String
target_structure input d e =
    or_else (requested_structure input d)
      (if is_repeat d.decision then e.structure_scope_id else none)

abbrev pub name_of : Option Structure → Option String
name_of none = none
name_of (some s) = some s.name

-- `levelForTargetStructure`
abbrev pub level_for_target_structure : Register → Option String → String → String
level_for_target_structure db none fallback = fallback
level_for_target_structure db (some id) fallback =
    coalesce (name_of (lookup id db.structures)) fallback

abbrev pub in_structure : Option String → Option String → Bool
in_structure none scope = true
in_structure (some id) scope = is_some_eq scope id

-- The query for the enrolments that the decisions name.
unfoldable pub in_scope : String → RolloverInput → Enrolment → Bool
in_scope institution input e =
    (e.institution_id == institution)
    && (is_some_eq e.academic_session_id input.from_session_id
        && (is_active e.status && in_structure input.from_structure_id e.structure_scope_id))

unfoldable pub is_missing : Register → String → RolloverInput → DecisionInput → Bool
is_missing db institution input d =
    if_some (lookup d.enrolment_id db.enrolments) true (λ e. not (in_scope institution input e))

abbrev pub some_missing : Register → String → RolloverInput → List DecisionInput → Bool
some_missing db institution input [] = false
some_missing db institution input (d ∷ ds) =
    is_missing db institution input d || some_missing db institution input ds

abbrev pub is_open_record : RolloverStatus → Bool
is_open_record pending_record = true
is_open_record approved_record = true
is_open_record _ = false

-- A record of an enrolment out of the session that is pending or approved.
abbrev pub is_duplicate_of : String → String → RolloverRecord → Bool
is_duplicate_of session enrolment r =
    is_some_eq r.enrolment_id enrolment
    && ((r.from_session_id == session) && is_open_record r.status)

abbrev pub has_duplicate : String → String → Assoc String RolloverRecord → Bool
has_duplicate session enrolment [] = false
has_duplicate session enrolment ((k, r) ∷ rs) =
    is_duplicate_of session enrolment r || has_duplicate session enrolment rs

abbrev pub some_duplicate : Register → String → List DecisionInput → Bool
some_duplicate db session [] = false
some_duplicate db session (d ∷ ds) =
    has_duplicate session d.enrolment_id db.rollovers || some_duplicate db session ds

abbrev pub assert_targets :
    Register → String → RolloverInput → List DecisionInput → Outcome (Unit {0})
assert_targets db institution input [] = ok tt
assert_targets db institution input (d ∷ ds) =
    assert_decision_target db institution d.decision (target_session input d)
      (requested_structure input d)
    >> assert_targets db institution input ds

-- The enrolment's own row after the decision.
unfoldable pub ended : Decision → ℕ → Enrolment → Enrolment
ended decision now e = record e {
  status = status_for_decision decision;
  exit_date = if is_terminal decision then some now else e.exit_date;
  exit_type = or_else (exit_type_for_decision decision) e.exit_type;
}

unfoldable pub rollover_row :
    Auth → String → RolloverInput → DecisionInput → ℕ → String → Enrolment → RolloverRecord
rollover_row auth institution input d now id e = record {
  uuid = id;
  institution_id = institution;
  learner_id = e.learner_id;
  enrolment_id = some e.uuid;
  from_session_id = input.from_session_id;
  to_session_id = target_session input d;
  from_structure_id = e.structure_scope_id;
  to_structure_id = target_structure input d e;
  decision = d.decision;
  status = approved_record;
  reason = d.reason;
  created_by_id = auth.institution_user_id;
  approved_by_id = auth.institution_user_id;
  approved_at = some now;
  dispute_id = none;
  disputed_at = none;
  resolution_note = none;
}

unfoldable pub next_enrolment :
    Register → String → RolloverInput → DecisionInput → ℕ → String → Enrolment → Enrolment
next_enrolment db institution input d now id e = record {
  uuid = id;
  learner_id = e.learner_id;
  institution_id = institution;
  academic_session_id = target_session input d;
  structure_scope_id = target_structure input d e;
  student_number = e.student_number;
  level = level_for_target_structure db (target_structure input d e) e.level;
  programme = e.programme;
  entry_date = now;
  exit_date = none;
  exit_type = none;
  status = active;
}

-- `tx.enrolment.update` of a row that the transaction reads again.
unfoldable pub end_enrolment : Decision → ℕ → String → Register → Outcome Register
end_enrolment decision now id db =
    if_some (lookup id db.enrolments) (throw (bad_request "Record to update not found."))
      (λ row. write_enrolment (ended decision now row) db)

abbrev pub begin_next : Decision → Enrolment → Register → Outcome Register
begin_next decision next db = if continues decision then create_enrolment next db else ok db

-- One decision on the enrolment that the handler has read.
unfoldable pub confirm_one :
    Auth
    → String
    → RolloverInput
    → ℕ
    → FreshRows
    → DecisionInput
    → Enrolment
    → Register
    → Outcome Register
confirm_one auth institution input now fresh d e db = do
  db ← end_enrolment d.decision now e.uuid db
  db ← create_rollover (rollover_row auth institution input d now fresh.rollover_id e) db
  begin_next d.decision (next_enrolment db institution input d now fresh.enrolment_id e) db

-- `before` is what the handler has read ahead of the transaction.
unfoldable pub confirm_all :
    Auth
    → String
    → RolloverInput
    → ℕ
    → Register
    → (ℕ → FreshRows)
    → ℕ
    → List DecisionInput
    → Register
    → Outcome Register
confirm_all auth institution input now before fresh i [] db = ok db
confirm_all auth institution input now before fresh i (d ∷ ds) db =
    if_some (lookup d.enrolment_id before.enrolments)
      (throw (bad_request "Rollover decision references an unknown enrolment."))
      (λ e. confirm_one auth institution input now (fresh i) d e db >>= λ db.
        confirm_all auth institution input now before fresh (suc i) ds db)

unfoldable pub confirm_rollover :
    Auth → Option RolloverInput → ℕ → (ℕ → FreshRows) → Register → Outcome Register
confirm_rollover auth body now fresh db = do
  input ← parsed_or body
  institution ← resolve_human_institution db auth input.institution_id
  assert_rollover_scope db institution.uuid (record {
    from_session_id = input.from_session_id;
    to_session_id = input.to_session_id;
    from_structure_id = input.from_structure_id;
    to_structure_id = input.to_structure_id;
  })
  refuse (some_missing db institution.uuid input input.decisions)
      (bad_request "Some rollover decisions reference inactive or out-of-scope enrolments.")
  refuse (some_duplicate db input.from_session_id input.decisions)
      (bad_request "Some enrolments already have pending or approved rollover records.")
  assert_targets db institution.uuid input input.decisions
  after ← confirm_all auth institution.uuid input now db fresh 0 input.decisions db
  ok (audited auth "rollover.confirm" input.from_session_id institution.uuid after)
