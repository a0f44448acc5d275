-- ===== src/Grading/Rows.antt =====
-- `gradeRows`. Credit units are counted in the (10000 * `suc fine`)th part of one, as fine as the
-- uploaded numbers need it; grade points, quality points and averages in ten-thousandths, to which
-- the code rounds.
use acadid.Common.{
  ℕ, suc, ◌+◌, ◌*◌, ◌/◌, leb, ltb, String, Option, none, some, coalesce, List, [], ◌∷◌, ◌++◌, Bool,
  true, false, ◌&&◌, not, ◌==◌, string_Eq, if_some, if◌then◌else◌,
}
use acadid.Common.Text.{trim, to_upper, is_blank}
use acadid.Common.Outcome.{Outcome, ok, throw, bad_request, ◌>>=◌}
use acadid.Grading.Scale.{
  RuleSource, default_fallback, configured, Band, Rule, find_band, is_tertiary,
}

pub record ResultRow : Type 0 where
  pub student_number : String
  pub total_score : ℕ
  pub grade : Option String
  pub credit_units : Option ℕ

pub record GradedRow : Type 0 where
  pub row : ResultRow
  pub grade : String
  pub grade_point : Option ℕ
  pub credit_units : Option ℕ
  pub quality_points : Option ℕ

-- The warnings by their codes, with the number of the row.
pub data Warning : Type 0 where
  score_above_max uploaded_grade_overridden : ℕ → Warning
  default_rule_used : Warning

-- `round(a * b, 4)` of units and points
abbrev pub rounded_product : ℕ → ℕ → ℕ → ℕ
rounded_product fine a b = (2 * (a * b) + 10000 * suc fine) / (20000 * suc fine)

-- `round(a / b, 4)` of a divisor that is not 0
abbrev pub rounded_quotient : ℕ → ℕ → ℕ
rounded_quotient a b = (2 * (a * 10000) + b) / (2 * b)

-- The variables that the loop adds to.
pub record Totals : Type 0 where
  pub warnings : List Warning
  pub attempted : ℕ
  pub earned : ℕ
  pub quality : ℕ

abbrev pub overrides : Option String → Band → Bool
overrides none band = false
overrides (some grade) band =
    not (is_blank grade) && not (to_upper (trim grade) == to_upper (trim band.grade))

abbrev pub row_quality : ℕ → Option ℕ → Option ℕ → Option ℕ
row_quality fine none point = none
row_quality fine (some units) none = none
row_quality fine (some units) (some point) = some (rounded_product fine units point)

abbrev pub passes : Rule → Band → ℕ → Bool
passes rule band score = coalesce band.pass (leb (coalesce rule.pass_mark 0) score)

-- `rule.engine === "TERTIARY_GPA" && creditUnits !== undefined && gradePoint !== undefined`
abbrev pub counted_units : Rule → ResultRow → Band → Option ℕ
counted_units rule row band =
    if is_tertiary rule.engine
    then if_some band.grade_point none (λ point. row.credit_units)
    else none

abbrev pub row_warnings : Rule → ℕ → ResultRow → Band → List Warning
row_warnings rule i row band =
    (if ltb rule.max_score row.total_score then score_above_max (suc i) ∷ [] else [])
    ++ (if overrides row.grade band then uploaded_grade_overridden (suc i) ∷ [] else [])

unfoldable pub add_row : ℕ → Rule → ℕ → ResultRow → Band → Totals → Totals
add_row fine rule i row band totals = record {
  warnings = totals.warnings ++ row_warnings rule i row band;
  attempted = totals.attempted + coalesce (counted_units rule row band) 0;
  earned =
      totals.earned
      + (if passes rule band row.total_score then coalesce (counted_units rule row band) 0 else 0);
  quality =
      totals.quality
      + if_some (counted_units rule row band) 0
          (λ units. coalesce (row_quality fine row.credit_units band.grade_point) 0);
}

abbrev pub graded : ℕ → ResultRow → Band → GradedRow
graded fine row band = record {
  row = row;
  grade = band.grade;
  grade_point = band.grade_point;
  credit_units = row.credit_units;
  quality_points = row_quality fine row.credit_units band.grade_point;
}

-- The rows from the index on.
unfoldable pub grade_from :
    ℕ → Rule → ℕ → List ResultRow → Totals → Outcome (List GradedRow × Totals)
unfolding add_row
grade_from fine rule i [] totals = ok ([], totals)
grade_from fine rule i (row ∷ rows) totals =
    if_some (find_band row.total_score rule.scale)
      (throw (bad_request "Result score does not match any configured grading band."))
      (λ band. do
        (graded_rows, last) ←
            grade_from fine rule (suc i) rows (add_row fine rule i row band totals)
        ok (graded fine row band ∷ graded_rows, last))

abbrev pub is_fallback : RuleSource → Bool
is_fallback default_fallback = true
is_fallback configured = false

pub record Summary : Type 0 where
  pub attempted_credit_units : ℕ
  pub earned_credit_units : ℕ
  pub quality_points : ℕ
  pub gpa : Option ℕ

pub record Grades : Type 0 where
  pub rows : List GradedRow
  pub warnings : List Warning
  pub summary : Summary

abbrev pub no_totals : Totals
no_totals = record { warnings = []; attempted = 0; earned = 0; quality = 0 }

unfoldable pub grades_of : ℕ → Rule → List GradedRow × Totals → Grades
grades_of fine rule result = record {
  rows = result.0;
  warnings = result.1.warnings ++ (if is_fallback rule.source then default_rule_used ∷ [] else []);
  summary = record {
    attempted_credit_units = result.1.attempted;
    earned_credit_units = result.1.earned;
    quality_points = result.1.quality;
    gpa =
        if ltb 0 result.1.attempted
        then some (rounded_quotient (result.1.quality * suc fine) result.1.attempted)
        else none;
  };
}

unfoldable pub grade_rows : ℕ → List ResultRow → Rule → Outcome Grades
unfolding grade_from grades_of
grade_rows fine rows rule =
    grade_from fine rule 0 rows no_totals >>= λ result. ok (grades_of fine rule result)
