-- ===== src/Batches.antt =====
-- Result batches and academic standings: the tables that `transitionBatch`, `publishBatch` and
-- `rejectBatch` of apps/api/src/modules/gateway/governance/governance.service.ts read and write.
-- Grade points and credit units are counted in ten-thousandths, with exact arithmetic.
use acadid.Common.{ℕ, String, Option, List, Bool}
use acadid.Common.Assoc.{Assoc}
use acadid.Authority.{InstitutionUser}
use acadid.Authority.Grants.{Institution}
use acadid.Requests.{AuditEvent}
use acadid.Grading.Scale.{Engine}
pub mod Standings
pub mod Transitions
pub mod Publication
pub mod Republished

-- `AcademicRecordStatus`
pub data RecordStatus : Type 0 where
  draft submitted reviewed approved published rejected sealed amended : RecordStatus

pub record Batch : Type 0 where
  pub uuid : String
  pub institution_id : String
  pub status : RecordStatus
  pub rejection_count : ℕ
  pub submitted_at : Option ℕ
  pub reviewed_at : Option ℕ
  pub approved_at : Option ℕ
  pub published_at : Option ℕ

-- The engine and the maximum are those of the record's grading rules, where it has some.
pub record AcademicRecord : Type 0 where
  pub uuid : String
  pub enrolment_id : String
  pub learner_id : String
  pub result_batch_id : Option String
  pub academic_session_id : Option String
  pub period_label : String
  pub grade_point : Option ℕ
  pub credit_units : Option ℕ
  pub quality_points : Option ℕ
  pub engine : Option Engine
  pub rule_point_max : Option ℕ
  pub status : RecordStatus
  pub published_at : Option ℕ
  pub created_at : ℕ

pub data Classification : Type 0 where
  first_class second_class_upper second_class_lower third_class pass_class fail_class :
      Classification

pub record Standing : Type 0 where
  pub learner_id : String
  pub institution_id : String
  pub latest_session_id : Option String
  pub latest_period_label : Option String
  pub attempted_credit_units : ℕ
  pub earned_credit_units : ℕ
  pub quality_points : ℕ
  pub cgpa : Option ℕ
  pub grade_point_max : ℕ
  pub classification : Option Classification
  pub is_four_point : Bool
  pub included_record_count : ℕ
  pub period_count : ℕ
  pub computed_at : ℕ

-- A result slip; its payload and signature are left out.
pub record Slip : Type 0 where
  pub credential_ref : String
  pub learner_id : String
  pub institution_id : String
  pub academic_record_id : String

-- `enrolments` holds the learner and the institution of each.
pub record Results : Type 0 where
  pub institutions : List Institution
  pub users : List InstitutionUser
  pub batches : Assoc String Batch
  pub records : List AcademicRecord
  pub enrolments : Assoc String (String × String)
  pub slips : List Slip
  pub standings : Assoc String Standing
  pub audit : List AuditEvent
