-- ===== src/Examples/Grades.antt =====
-- Scores under the default and a configured scale, and a batch that is published twice
-- (ingestion.service.ts and governance.service.ts).
use acadid.Common.{
  ℕ, ◌+◌, ◌*◌, ◌≤◌, count, coalesce, String, none, some, [], ◌∷◌, true, ◌≡◌, refl, string_Eq, arith,
  if◌then◌else◌,
}
use mathlib.Core.List.{Memᴰ}
use acadid.Common.Assoc.{lookup}
use acadid.Common.Text.{is_uuid, is_uuid_from, is_uuid_char, is_hex}
use acadid.Common.Json.{bool, obj, end, field}
use acadid.Common.Outcome.{ok, throw}
use acadid.Authority.{Auth, acadid_super_admin, user, assert_actor_can_operate_institution}
use acadid.Authority.Grants.{Grant, Institution, permission_allows, assert_institution_can}
use acadid.Grading.Scale.{
  tertiary_gpa, Band, Candidate, find_band, band_of, bands_of, insert_band, sort_bands,
  normalize_scale, base_scale, default_grading_rule,
}
use acadid.Grading.Rows.{ResultRow, Grades, add_row, grade_from, grades_of, grade_rows}
use acadid.Grading.Standard.{standard, in_gap, find_band-base_scale}
use acadid.Grading.Highest.{normalize_scale-highest}
use acadid.Grading.Bounds.{HasPoints, grade_rows-bounds}
use acadid.Batches.{approved, Batch, AcademicRecord, Results}
use acadid.Batches.Transitions.{
  to_approved, transition_batch, existing_batch, is_approved, published_batch, publish_batch,
}
use acadid.Batches.Publication.{is_unpublished, is_slip_of, is_batch_record, publish_batch-issues}
use acadid.Batches.Republished.{publish_batch-twice}

-- 69.995 falls between the bands of A and B.
find_band-base_scale_example :
    find_band 699950 (base_scale tertiary_gpa)
    ≡ (if in_gap 699950 then none else some (standard tertiary_gpa 699950))
find_band-base_scale_example = find_band-base_scale tertiary_gpa 699950 (omega arith)

abbrev candidate : ℕ → String → Candidate
candidate low grade = record {
  is_object = true;
  min_score = some low;
  max_score = none;
  grade = some grade;
  grade_point = none;
  pass = none;
}

abbrev band : ℕ → String → Band
band low grade = record {
  min_score = low;
  max_score = some 1000000;
  grade = grade;
  grade_point = none;
  pass = none;
}

accepted :
    normalize_scale (some (candidate 0 "F" ∷ candidate 500000 "P" ∷ [])) 1000000
    ≡ ok (band 500000 "P" ∷ band 0 "F" ∷ [])
unfolding normalize_scale bands_of band_of sort_bands insert_band
accepted = refl

normalize_scale-highest_example : 0 ≤ 500000
normalize_scale-highest_example =
    normalize_scale-highest (some (candidate 0 "F" ∷ candidate 500000 "P" ∷ [])) 1000000 640000
      (band 500000 "P" ∷ band 0 "F" ∷ []) (band 500000 "P") (band 0 "F") accepted refl
      (Memᴰ.tail (Memᴰ.head refl)) refl

abbrev course : ResultRow
course = record {
  student_number = "N-1";
  total_score = 650000;
  grade = some " a";
  credit_units = some 30000;
}

abbrev course_grades : Grades
course_grades = elim (grade_rows 0 (course ∷ []) (default_grading_rule tertiary_gpa)) [
  | throw e ↦ record {
    rows = [];
    warnings = [];
    summary = record {
      attempted_credit_units = 0;
      earned_credit_units = 0;
      quality_points = 0;
      gpa = none;
    };
  }
  | ok grades ↦ grades
]

course_graded : grade_rows 0 (course ∷ []) (default_grading_rule tertiary_gpa) ≡ ok course_grades
unfolding grade_rows grade_from grades_of add_row default_grading_rule base_scale
course_graded = refl

default-HasPoints : HasPoints 5 (default_grading_rule tertiary_gpa).scale
unfolding default_grading_rule base_scale
default-HasPoints =
    (omega arith, (omega arith, (omega arith, (omega arith, (omega arith, (omega arith, tt))))))

grade_rows-bounds_example :
    (course_grades.summary.earned_credit_units ≤ course_grades.summary.attempted_credit_units)
    × (coalesce course_grades.summary.gpa 0 ≤ 5 * 10000)
grade_rows-bounds_example =
    grade_rows-bounds 0 5 (default_grading_rule tertiary_gpa) (course ∷ []) course_grades
      default-HasPoints ((30000, omega arith), tt) course_graded

-- With 0.00005 credit units the average is 6, of 5 grade points at most.
fine_course :
    elim (grade_rows 1
      (record course { total_score = 750000; credit_units = some 1 } ∷ [])
      (default_grading_rule tertiary_gpa)) [ throw e ↦ none | ok grades ↦ grades.summary.gpa ]
    ≡ some 60000
unfolding grade_rows grade_from grades_of add_row default_grading_rule base_scale
fine_course = refl

abbrev founder : Auth
founder = record {
  sub = "f1";
  role = acadid_super_admin;
  kind = user;
  institution_uuid = none;
  institution_user_id = none;
  api_key_id = none;
}

abbrev university : Institution
university = record {
  uuid = "i1";
  institution_id = "i1";
  is_active = true;
  grants =
      record {
        uuid = "g1";
        effective_from = 0;
        expires_at = none;
        permissions = obj (field "publish_credentials" (bool true) end);
      }
      ∷ [];
}

abbrev batch : Batch
batch = record {
  uuid = "b1";
  institution_id = "i1";
  status = approved;
  rejection_count = 0;
  submitted_at = none;
  reviewed_at = none;
  approved_at = some 1;
  published_at = none;
}

abbrev mark : AcademicRecord
mark = record {
  uuid = "m1";
  enrolment_id = "e1";
  learner_id = "l1";
  result_batch_id = some "b1";
  academic_session_id = none;
  period_label = "First";
  grade_point = some 40000;
  credit_units = some 30000;
  quality_points = some 120000;
  engine = some tertiary_gpa;
  rule_point_max = some 50000;
  status = approved;
  published_at = none;
  created_at = 1;
}

abbrev results : Results
results = record {
  institutions = university ∷ [];
  users = [];
  batches = ("b1", batch) ∷ [];
  records = mark ∷ [];
  enrolments = ("e1", ("l1", "i1")) ∷ [];
  slips = [];
  standings = [];
  audit = [];
}

abbrev fresh_refs : ℕ → String
fresh_refs i = "c1"

abbrev released : Results
released = elim (publish_batch founder "b1" 7 fresh_refs results) [
  | throw e ↦ results
  | ok after ↦ after
]

releases_batch : publish_batch founder "b1" 7 fresh_refs results ≡ ok released
unfolding publish_batch existing_batch lookup assert_institution_can permission_allows is_uuid
    is_uuid_from is_uuid_char is_hex assert_actor_can_operate_institution
releases_batch = refl

stored_batch : lookup "b1" results.batches ≡ some batch
unfolding lookup
stored_batch = refl

publish_batch-issues_example :
    (is_approved batch.status ≡ true)
    × (lookup "b1" released.batches ≡ some (published_batch 7 batch))
    × (count (is_unpublished "b1") released.records ≡ 0)
    × (count (is_slip_of "m1") released.slips
        ≡ count (is_slip_of "m1") results.slips + count (is_batch_record "b1" "m1") results.records)
publish_batch-issues_example =
    publish_batch-issues founder "b1" "m1" 7 fresh_refs batch results released stored_batch refl
      releases_batch

may_operate :
    assert_actor_can_operate_institution results.users founder batch.institution_id ≡ ok tt
unfolding assert_actor_can_operate_institution
may_operate = refl

abbrev grant : Institution × Grant
grant = (
  university,
  record {
    uuid = "g1";
    effective_from = 0;
    expires_at = none;
    permissions = obj (field "publish_credentials" (bool true) end);
  },
)

may_publish :
    assert_institution_can results.institutions results.users batch.institution_id
      "publish_credentials"
      (some founder)
      9
    ≡ ok grant
unfolding assert_institution_can permission_allows is_uuid is_uuid_from is_uuid_char is_hex
    assert_actor_can_operate_institution
may_publish = refl

publish_batch-twice_example :
    (mid : Results) × (last : Results) × (transition_batch founder "b1" to_approved 8 released
      ≡ ok mid)
    × (publish_batch founder "b1" 9 fresh_refs mid ≡ ok last)
    × (count (is_slip_of "m1") last.slips
        ≡ count (is_slip_of "m1") results.slips
          + 2 * count (is_batch_record "b1" "m1") results.records)
publish_batch-twice_example =
    publish_batch-twice founder "b1" "m1" 7 8 9 fresh_refs fresh_refs grant batch results released
      stored_batch refl releases_batch may_operate may_publish
