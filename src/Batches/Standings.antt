-- ===== src/Batches/Standings.antt =====
-- `recomputeAcademicStanding`, `resolveGradePointMax` and `classifyCgpa`.
use acadid.Common.{
  ℕ, ◌+◌, ◌*◌, max, leb, ltb, length, filterb, String, Option, none, some, coalesce, List, [], ◌∷◌,
  Bool, true, false, not, ◌&&◌, ◌||◌, ◌==◌, string_Eq, if_some, if◌then◌else◌,
}
use acadid.Common.Assoc.{lookup, put}
use acadid.Requests.Guards.{is_some}
use acadid.Grading.Scale.{is_tertiary}
use acadid.Grading.Rows.{rounded_quotient}
use acadid.Batches.{
  RecordStatus, published, AcademicRecord, Classification, first_class, second_class_upper,
  second_class_lower, third_class, pass_class, fail_class, Standing, Results,
}

abbrev pub is_published : RecordStatus → Bool
is_published published = true
is_published _ = false

-- The query for the records of a standing.
abbrev pub counts_for : String → AcademicRecord → Bool
counts_for enrolment r =
    (r.enrolment_id == enrolment)
    && (is_published r.status && (is_some r.grade_point && is_some r.credit_units))

abbrev pub is_tertiary_record : AcademicRecord → Bool
is_tertiary_record r = if_some r.engine false is_tertiary

-- The records by the tertiary rules, if there are some, and otherwise all.
abbrev pub some_or_all : List AcademicRecord → List AcademicRecord → List AcademicRecord
some_or_all [] all = all
some_or_all (r ∷ rs) all = r ∷ rs

abbrev pub rollup_records : String → List AcademicRecord → List AcademicRecord
rollup_records enrolment rows =
    some_or_all (filterb is_tertiary_record (filterb (counts_for enrolment) rows))
      (filterb (counts_for enrolment) rows)

abbrev pub sum_of : (AcademicRecord → ℕ) → List AcademicRecord → ℕ
sum_of f [] = 0
sum_of f (r ∷ rs) = f r + sum_of f rs

abbrev pub units_of : AcademicRecord → ℕ
units_of r = coalesce r.credit_units 0

abbrev pub earned_of : AcademicRecord → ℕ
earned_of r = if ltb 0 (coalesce r.grade_point 0) then coalesce r.credit_units 0 else 0

abbrev pub quality_of : AcademicRecord → ℕ
quality_of r = coalesce r.quality_points 0

-- `Math.max(...xs)` of what is above 0, and 0 of none
abbrev pub largest : (AcademicRecord → ℕ) → List AcademicRecord → ℕ
largest f [] = 0
largest f (r ∷ rs) = max (f r) (largest f rs)

unfoldable pub resolve_grade_point_max : List AcademicRecord → ℕ
resolve_grade_point_max rs =
    if ltb 0 (largest (λ r. coalesce r.rule_point_max 0) rs)
    then largest (λ r. coalesce r.rule_point_max 0) rs
    else if ltb 0 (largest (λ r. coalesce r.grade_point 0) rs)
        && leb (largest (λ r. coalesce r.grade_point 0) rs) 40000
    then 40000
    else 50000

-- `normalized >= tenths / 10`, where `normalized` is `(cgpa / gradePointMax) * 5`
abbrev pub reaches : ℕ → ℕ → ℕ → Bool
reaches tenths cgpa most =
    if ltb 0 most then leb (tenths * most) (cgpa * 50) else leb (tenths * 1000) cgpa

unfoldable pub classify_cgpa : ℕ → ℕ → Classification
classify_cgpa cgpa most =
    if reaches 45 cgpa most
    then first_class
    else if reaches 35 cgpa most
    then second_class_upper
    else if reaches 24 cgpa most
    then second_class_lower
    else if reaches 15 cgpa most
    then third_class
    else if reaches 10 cgpa most
    then pass_class
    else fail_class

-- Whether a time comes before another in descending order, where PostgreSQL puts null first.
abbrev pub descends : Option ℕ → Option ℕ → Bool
descends none none = false
descends none (some b) = true
descends (some a) none = false
descends (some a) (some b) = ltb b a

-- Whether the row comes first, by `publishedAt` and then by `createdAt`, both in descending order.
abbrev pub is_later : AcademicRecord → AcademicRecord → Bool
is_later a b =
    descends a.published_at b.published_at
    || (not (descends b.published_at a.published_at) && ltb b.created_at a.created_at)

abbrev pub later_of : AcademicRecord → Option AcademicRecord → AcademicRecord
later_of r none = r
later_of r (some s) = if is_later s r then s else r

-- `rollupRecords[0]`
abbrev pub latest_of : List AcademicRecord → Option AcademicRecord
latest_of [] = none
latest_of (r ∷ rs) = some (later_of r (latest_of rs))

-- Whether two rows are of the same period.
abbrev pub same_period : AcademicRecord → AcademicRecord → Bool
same_period a b =
    (coalesce a.academic_session_id "none" == coalesce b.academic_session_id "none")
    && (a.period_label == b.period_label)

abbrev pub has_period : AcademicRecord → List AcademicRecord → Bool
has_period r [] = false
has_period r (s ∷ ss) = same_period r s || has_period r ss

-- The size of the set of periods.
abbrev pub period_count_of : List AcademicRecord → ℕ
period_count_of [] = 0
period_count_of (r ∷ rs) = (if has_period r rs then 0 else 1) + period_count_of rs

abbrev pub session_of_latest : Option AcademicRecord → Option String
session_of_latest none = none
session_of_latest (some r) = r.academic_session_id

abbrev pub label_of_latest : Option AcademicRecord → Option String
label_of_latest none = none
label_of_latest (some r) = some r.period_label

abbrev pub average_of : ℕ → ℕ → Option ℕ
average_of quality attempted =
    if ltb 0 attempted then some (rounded_quotient quality attempted) else none

abbrev pub classification_of : Option ℕ → ℕ → Option Classification
classification_of none most = none
classification_of (some cgpa) most = some (classify_cgpa cgpa most)

unfoldable pub standing_of : String × String → ℕ → List AcademicRecord → Standing
unfolding resolve_grade_point_max classify_cgpa
standing_of enrolment now rs =
    let attempted = sum_of units_of rs in
    let quality = sum_of quality_of rs in
    record {
      learner_id = enrolment.0;
      institution_id = enrolment.1;
      latest_session_id = session_of_latest (latest_of rs);
      latest_period_label = label_of_latest (latest_of rs);
      attempted_credit_units = attempted;
      earned_credit_units = sum_of earned_of rs;
      quality_points = quality;
      cgpa = average_of quality attempted;
      grade_point_max = resolve_grade_point_max rs;
      classification =
          classification_of (average_of quality attempted) (resolve_grade_point_max rs);
      is_four_point = leb (resolve_grade_point_max rs) 40000;
      included_record_count = length rs;
      period_count = period_count_of rs;
      computed_at = now;
    }

unfoldable pub recompute_academic_standing : ℕ → String → Results → Results
unfolding standing_of
recompute_academic_standing now enrolment db = if_some (lookup enrolment db.enrolments) db (λ e.
    record db {
      standings =
          put enrolment (standing_of e now (rollup_records enrolment db.records)) db.standings;
    })
