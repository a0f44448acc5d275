-- ===== src/Academics.antt =====
-- Enrolments and how they end: the tables that rollovers, transfers, disputes and the reopening of
-- sealed sessions read and write (apps/api/src/modules/gateway/governance/governance.service.ts), and
-- the writes that the database refuses. Times are milliseconds.
use acadid.Common.{
  ℕ, String, Option, some, List, [], ◌∷◌, ◌++◌, Bool, true, false, not, ◌&&◌, ◌||◌, ◌==◌, string_Eq,
  nat_Eq, if_some,
}
use acadid.Common.Assoc.{Assoc, lookup, put}
use acadid.Common.Outcome.{Outcome, ok, throw, plain_error, refuse, ◌>>◌}
use acadid.Authority.{Auth, Role, InstitutionUser}
use acadid.Authority.Grants.{Institution}
use acadid.Requests.{AuditEvent}
pub mod Guards
pub mod Rollover
pub mod Transfers
pub mod Disputes
pub mod Reopen
pub mod Sessions
pub mod Left
pub mod Advance
pub mod Aside
pub mod Operations
pub mod Rolled
pub mod Twice
pub mod References
pub mod Reopened
pub mod Current
pub mod Single
pub mod Rejected

pub data EnrolmentStatus : Type 0 where
  active pending_rollover promoted repeated transferred_out withdrawn graduated suspended
        sealed_enrolment closed_enrolment :
      EnrolmentStatus

abbrev pub status_code : EnrolmentStatus → ℕ
status_code active = 0
status_code pending_rollover = 1
status_code promoted = 2
status_code repeated = 3
status_code transferred_out = 4
status_code withdrawn = 5
status_code graduated = 6
status_code suspended = 7
status_code sealed_enrolment = 8
status_code closed_enrolment = 9

abbrev pub is_active : EnrolmentStatus → Bool
is_active active = true
is_active _ = false

pub data SessionStatus : Type 0 where
  draft session_active session_closed sealed : SessionStatus

pub data PeriodType : Type 0 where
  term semester : PeriodType

abbrev pub is_sealed : SessionStatus → Bool
is_sealed sealed = true
is_sealed _ = false

pub data Decision : Type 0 where
  promote repeat transfer_out withdraw graduate suspend seal : Decision

pub data ExitType : Type 0 where
  exit_transfer exit_withdraw exit_graduate : ExitType

pub data RolloverStatus : Type 0 where
  pending_record approved_record cancelled_record : RolloverStatus

pub data TransferStatus : Type 0 where
  requested in_review approved rejected cancelled completed disputed : TransferStatus

pub data ReopenStatus : Type 0 where
  reopen_requested reopen_approved reopen_rejected reopen_cancelled : ReopenStatus

pub data DisputeStatus : Type 0 where
  dispute_open dispute_resolved dispute_escalated : DisputeStatus

pub data Priority : Type 0 where
  low normal high critical : Priority

pub record Enrolment : Type 0 where
  pub uuid : String
  pub learner_id : String
  pub institution_id : String
  pub academic_session_id : Option String
  pub structure_scope_id : Option String
  pub student_number : String
  pub level : String
  pub programme : String
  pub entry_date : ℕ
  pub exit_date : Option ℕ
  pub exit_type : Option ExitType
  pub status : EnrolmentStatus

-- Without `createdById`, which nothing reads.
pub record Session : Type 0 where
  pub uuid : String
  pub institution_id : String
  pub session_label : String
  pub period_type : PeriodType
  pub period_label : String
  pub start_date : Option ℕ
  pub end_date : Option ℕ
  pub status : SessionStatus
  pub is_current : Bool

pub record Structure : Type 0 where
  pub uuid : String
  pub institution_id : String
  pub name : String
  pub is_active : Bool

pub record RolloverRecord : Type 0 where
  pub uuid : String
  pub institution_id : String
  pub learner_id : String
  pub enrolment_id : Option String
  pub from_session_id : String
  pub to_session_id : Option String
  pub from_structure_id : Option String
  pub to_structure_id : Option String
  pub decision : Decision
  pub status : RolloverStatus
  pub reason : Option String
  pub created_by_id : Option String
  pub approved_by_id : Option String
  pub approved_at : Option ℕ
  pub dispute_id : Option String
  pub disputed_at : Option ℕ
  pub resolution_note : Option String

pub record TransferNote : Type 0 where
  pub at : ℕ
  pub by : String
  pub role : Role
  pub status : String
  pub note : Option String

pub record Transfer : Type 0 where
  pub uuid : String
  pub transfer_id : String
  pub learner_id : String
  pub from_institution_id : String
  pub to_institution_id : Option String
  pub from_enrolment_id : Option String
  pub from_session_id : Option String
  pub from_structure_id : Option String
  pub to_name : Option String
  pub to_email : Option String
  pub reason : Option String
  pub status : TransferStatus
  pub requested_by_id : Option String
  pub requested_at : ℕ
  pub reviewed_by_id : Option String
  pub reviewed_at : Option ℕ
  pub rejected_at : Option ℕ
  pub cancelled_at : Option ℕ
  pub completed_at : Option ℕ
  pub rollover_record_id : Option String
  pub dispute_id : Option String
  pub notes : List TransferNote

pub record Dispute : Type 0 where
  pub uuid : String
  pub title : String
  pub description : String
  pub category : String
  pub priority : Priority
  pub status : DisputeStatus
  pub institution_id : Option String
  pub learner_id : Option String
  pub reporter_name : Option String
  pub reporter_email : Option String
  pub resolved_at : Option ℕ
  pub resolution_note : Option String

-- `SealedSessionReopenRequest`
pub record ReopenRequest : Type 0 where
  pub uuid : String
  pub institution_id : String
  pub session_id : String
  pub requested_by_id : Option String
  pub requested_status : SessionStatus
  pub reason : String
  pub due_at : ℕ
  pub status : ReopenStatus
  pub reviewed_by_id : Option String
  pub review_reason : Option String
  pub reviewed_at : Option ℕ

-- `official_names` holds the column `officialName` of the institutions. The rows of `reopens` stand with the newest first, as the queries read them.
pub record Register : Type 0 where
  pub institutions : List Institution
  pub official_names : Assoc String String
  pub users : List InstitutionUser
  pub sessions : Assoc String Session
  pub structures : Assoc String Structure
  pub enrolments : Assoc String Enrolment
  pub rollovers : Assoc String RolloverRecord
  pub transfers : Assoc String Transfer
  pub disputes : Assoc String Dispute
  pub reopens : List ReopenRequest
  pub audit : List AuditEvent

-- `@@unique([institutionId, studentNumber, status])`
abbrev pub clashes : Enrolment → Enrolment → Bool
clashes a b =
    (a.institution_id == b.institution_id)
    && ((a.student_number == b.student_number) && (status_code a.status == status_code b.status))

-- Whether another row has the unique key of this one.
unfoldable pub is_occupied : Enrolment → Assoc String Enrolment → Bool
is_occupied e [] = false
is_occupied e ((k, row) ∷ rows) = (not (k == e.uuid) && clashes row e) || is_occupied e rows

unfoldable pub write_enrolment : Enrolment → Register → Outcome Register
write_enrolment e db =
    refuse (is_occupied e db.enrolments)
      (plain_error "Unique constraint failed on institutionId, studentNumber, status.")
    >> ok (record db { enrolments = put e.uuid e db.enrolments })

unfoldable pub create_enrolment : Enrolment → Register → Outcome Register
create_enrolment e db =
    if_some (lookup e.uuid db.enrolments) (write_enrolment e db)
      (λ row. throw (plain_error "Unique constraint failed on uuid."))

unfoldable pub create_rollover : RolloverRecord → Register → Outcome Register
create_rollover r db =
    if_some (lookup r.uuid db.rollovers) (ok (record db { rollovers = put r.uuid r db.rollovers }))
      (λ row. throw (plain_error "Unique constraint failed on uuid."))

unfoldable pub audited : Auth → String → String → String → Register → Register
audited auth action target institution db = record db {
  audit =
      db.audit
      ++ (record {
        actor_id = some auth.sub;
        action = action;
        target_id = target;
        institution_id = some institution;
      }
          ∷ []);
}
