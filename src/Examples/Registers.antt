-- ===== src/Examples/Registers.antt =====
-- A register of two students, of whom one is new and one is enrolled (ingestion.service.ts).
use acadid.Common.{ℕ, length, String, none, some, [], ◌∷◌, true, ◌≡◌, refl, string_Eq}
use acadid.Common.Assoc.{lookup, put, remove}
use acadid.Common.Text.{
  is_uuid, is_uuid_from, is_uuid_char, is_hex, trim, trim_start, trim_end, is_space, to_upper,
  upper_char, length_of,
}
use acadid.Common.Json.{bool, obj, end, field}
use acadid.Common.Outcome.{ok, throw}
use acadid.Authority.{assert_actor_can_operate_institution}
use acadid.Authority.Grants.{Grant, Institution, permission_allows, assert_institution_can}
use acadid.Uploads.Csv.{text_append}
use acadid.Academics.{Register, is_occupied, write_enrolment, create_enrolment}
use acadid.Registers.Ingest.{
  StudentRow, RegisterInput, FreshStudent, Progress, digits, zeros, format_ain, active_enrolment,
  new_learner, created_learner, learner_for, new_enrolment, enrol, ingest_row, ingest_rows, begin,
  ingest_audited, ingest_students,
}
use acadid.Registers.Again.{ingest_students-again}
use acadid.Examples.Academics.{founder, school_id, enrolled}

first_ain : format_ain "ng" 2026 41 ≡ "AIN-NG-2026-0000041"
unfolding format_ain digits zeros text_append length_of trim trim_start trim_end is_space to_upper
    upper_char
first_ain = refl

abbrev grant : Grant
grant = record {
  uuid = "g1";
  effective_from = 0;
  expires_at = none;
  permissions = obj (field "ingest_students" (bool true) end);
}

abbrev school : Institution
school = record {
  uuid = school_id;
  institution_id = "ACI-1";
  is_active = true;
  grants = grant ∷ [];
}

abbrev before : Register
before = record enrolled { institutions = school ∷ [] }

abbrev student_row : String → StudentRow
student_row number = record {
  full_name = "Ada Bello";
  date_of_birth = 0;
  student_number = number;
  level = "SS1";
  programme = "Science";
  phone = none;
}

abbrev input : RegisterInput
input = record {
  institution_id = "ACI-1";
  entry_date = some 0;
  rows = student_row "N-1" ∷ student_row "N-2" ∷ [];
}

abbrev year_of : ℕ → ℕ
year_of t = 2026

abbrev fresh_students : ℕ → FreshStudent
fresh_students i = record { learner_id = "l2"; enrolment_id = "e2" }

abbrev first : Progress
first = elim (ingest_students founder (some input) 5 year_of fresh_students before []) [
  | throw e ↦ begin before []
  | ok p ↦ p
]

accepts : ingest_students founder (some input) 5 year_of fresh_students before [] ≡ ok first
unfolding ingest_students ingest_rows ingest_row active_enrolment enrol learner_for created_learner
    new_learner new_enrolment ingest_audited format_ain digits zeros text_append length_of trim
    trim_start trim_end is_space to_upper upper_char create_enrolment write_enrolment is_occupied
    lookup put remove assert_institution_can permission_allows is_uuid is_uuid_from is_uuid_char
    is_hex assert_actor_can_operate_institution
accepts = refl

creates_one : (first.created_enrolments ≡ 1) × (first.existing_enrolments ≡ 1)
unfolding ingest_students ingest_rows ingest_row active_enrolment enrol learner_for created_learner
    new_learner new_enrolment ingest_audited format_ain digits zeros text_append length_of trim
    trim_start trim_end is_space to_upper upper_char create_enrolment write_enrolment is_occupied
    lookup put remove assert_institution_can permission_allows is_uuid is_uuid_from is_uuid_char
    is_hex assert_actor_can_operate_institution
creates_one = (refl, refl)

allowed :
    assert_institution_can before.institutions before.users "ACI-1" "ingest_students"
      (some founder)
      5
    ≡ ok (school, grant)
unfolding assert_institution_can permission_allows is_uuid is_uuid_from is_uuid_char is_hex
    assert_actor_can_operate_institution
allowed = refl

still_allowed :
    assert_institution_can first.register.institutions first.register.users "ACI-1"
      "ingest_students"
      (some founder)
      9
    ≡ ok (school, grant)
unfolding ingest_students ingest_rows ingest_row active_enrolment enrol learner_for created_learner
    new_learner new_enrolment ingest_audited format_ain digits zeros text_append length_of trim
    trim_start trim_end is_space to_upper upper_char create_enrolment write_enrolment is_occupied
    lookup put remove assert_institution_can permission_allows is_uuid is_uuid_from is_uuid_char
    is_hex assert_actor_can_operate_institution
still_allowed = refl

ingest_students-again_example :
    (q : Progress) × (ingest_students founder
        (some input)
        9
        year_of
        fresh_students
        first.register
        first.learners
      ≡ ok q)
    × (q.learners ≡ first.learners)
    × (q.register.enrolments ≡ first.register.enrolments)
    × (q.created_learners ≡ 0)
    × (q.created_enrolments ≡ 0)
    × (q.existing_enrolments ≡ length input.rows)
ingest_students-again_example =
    ingest_students-again founder input 5 9 year_of fresh_students fresh_students (school, grant)
      before [] first accepts allowed still_allowed
