-- ===== src/Grading/Bounds.antt =====
-- The credit units and the grade point average of graded rows.
use native.Mathlib.Nat.{mul-le-mul_left, div-add-mod}
use acadid.Common.{
  ℕ, ◌+◌, ◌*◌, suc, ◌≤◌, leb, ltb, ◌/◌, ◌<◌, leb→le, ltb→lt, Option, none, some, coalesce, List, [],
  ◌∷◌, All, Bool, true, false, ◌≡◌, sym, subst, inl, inr, if_some, if◌then◌else◌, Bool-cases, arith,
  some-eq-some,
}
use acadid.Common.Outcome.{ok, >>=-eq-ok, present-eq-ok, ok-injective}
use acadid.Grading.Scale.{Band, Rule, in_band, find_band, is_tertiary}
use acadid.Grading.Rows.{
  ResultRow, GradedRow, Totals, Grades, rounded_product, rounded_quotient, passes, counted_units,
  row_quality, add_row, grade_from, grades_of, grade_rows, no_totals,
}

-- No band gives more grade points than a whole number of them.
abbrev pub HasPoints : ℕ → List Band → Type 0
HasPoints most scale = All (λ b. coalesce b.grade_point 0 ≤ most * 10000) scale

-- The credit units of a row are a whole number of ten-thousandths.
abbrev pub HasWholeUnits : ℕ → ResultRow → Type 0
HasWholeUnits fine row = (q : ℕ) × (coalesce row.credit_units 0 ≡ q * suc fine)

quotient-le : (n d most : ℕ) → n < suc most * d → n / d ≤ most
quotient-le n d most h = elim (Bool-cases (leb (n / d) most)) [
  | inl within ↦ leb→le (n / d) most within
  | inr beyond ↦
      let more : suc most ≤ n / d = ground arith in
      omega (arith, mul-le-mul_left d more, div-add-mod n d, h)
]

scale-le : (r q most fine : ℕ) → r ≤ q * most → r * suc fine ≤ q * suc fine * most
scale-le r q most fine h = omega (arith, mul-le-mul_left (suc fine) h)

rounded_product-le :
    (fine units point most q : ℕ)
    → units ≡ q * suc fine
    → point ≤ most * 10000
    → rounded_product fine units point * suc fine ≤ units * most
rounded_product-le fine units point most q whole h =
    let least : rounded_product fine units point ≤ q * most =
      quotient-le (2 * (units * point) + 10000 * suc fine) (20000 * suc fine) (q * most)
        (rw whole (omega (arith, mul-le-mul_left (2 * (q * suc fine)) h))) in
    subst (λ u. rounded_product fine units point * suc fine ≤ u * most) (sym whole)
      (scale-le (rounded_product fine units point) q most fine least)

rounded_quotient-le :
    (a b most : ℕ) → ltb 0 b ≡ true → a ≤ b * most → rounded_quotient a b ≤ most * 10000
rounded_quotient-le a b most positive h =
    quotient-le (2 * (a * 10000) + b) (2 * b) (most * 10000) (omega (arith, h, ltb→lt 0 b positive))

-- What the totals hold so far.
record IsBounded (fine most : ℕ) (t : Totals) : Type 0 where
  earned_le : t.earned ≤ t.attempted
  quality_le : t.quality * suc fine ≤ t.attempted * most

unit_cases : (b : Bool) (units : ℕ) → (if b then units else 0) ≤ units
unit_cases b units = ground arith

find-HasPoints :
    (most score : ℕ) (b : Band) (bs : List Band)
    → HasPoints most bs
    → find_band score bs ≡ some b
    → coalesce b.grade_point 0 ≤ most * 10000
find-HasPoints most score b [] h found = cc
find-HasPoints most score b (c ∷ cs) (p, ps) found = elim (Bool-cases (in_band score c)) [
  | inl hit ↦
      subst (λ x. coalesce x.grade_point 0 ≤ most * 10000) (some-eq-some (rw hit at found)) p
  | inr miss ↦ find-HasPoints most score b cs ps (rw miss at found)
]

counted-quality :
    (fine most q : ℕ) (tertiary : Bool) (units point : Option ℕ)
    → coalesce units 0 ≡ q * suc fine
    → coalesce point 0 ≤ most * 10000
    → (if_some
          (if tertiary then if_some point none (λ p. units) else none)
          0
          (λ u. coalesce (row_quality fine units point) 0))
        * suc fine
      ≤ coalesce (if tertiary then if_some point none (λ p. units) else none) 0 * most
counted-quality fine most q false units point w h = omega arith
counted-quality fine most q true units none w h = omega arith
counted-quality fine most q true none (some p) w h = omega arith
counted-quality fine most q true (some u) (some p) w h = rounded_product-le fine u p most q w h

add_row-IsBounded :
    (fine most : ℕ) (rule : Rule) (i : ℕ) (row : ResultRow) (band : Band) (t : Totals)
    → HasWholeUnits fine row
    → coalesce band.grade_point 0 ≤ most * 10000
    → IsBounded fine most t
    → IsBounded fine most (add_row fine rule i row band t)
unfolding add_row
add_row-IsBounded fine most rule i row band t (q, whole) points h = record {
  earned_le = omega (
    arith,
    h.earned_le,
    unit_cases (passes rule band row.total_score) (coalesce (counted_units rule row band) 0),
  );
  quality_le = omega (
    arith,
    h.quality_le,
    counted-quality fine most q (is_tertiary rule.engine) row.credit_units band.grade_point whole
        points,
  );
}

average-le :
    (fine most : ℕ) (t : Totals)
    → IsBounded fine most t
    → coalesce
        (if ltb 0 t.attempted
          then some (rounded_quotient (t.quality * suc fine) t.attempted)
          else none)
        0
      ≤ most * 10000
average-le fine most t h = elim (Bool-cases (ltb 0 t.attempted)) [
  | inl positive ↦
      rw positive
        (rounded_quotient-le (t.quality * suc fine) t.attempted most positive h.quality_le)
  | inr zero_units ↦ rw zero_units (omega arith)
]

grade_from-IsBounded :
    (fine most : ℕ) (rule : Rule) (i : ℕ) (rows : List ResultRow) (t : Totals)
    {result : List GradedRow × Totals}
    → All (HasWholeUnits fine) rows
    → HasPoints most rule.scale
    → IsBounded fine most t
    → grade_from fine rule i rows t ≡ ok result
    → IsBounded fine most result.1
unfolding grade_from
grade_from-IsBounded fine most rule i [] t whole points h e =
    subst (λ r. IsBounded fine most r.1) (sym (ok-injective e)) h
grade_from-IsBounded fine most rule i (row ∷ rows) t (whole, wholes) points h e =
    let (band, found, a) = present-eq-ok (find_band row.total_score rule.scale) _ _ e in
    let (rest, graded_rest, last) =
      >>=-eq-ok (grade_from fine rule (suc i) rows (add_row fine rule i row band t)) _ a in
    subst (λ r. IsBounded fine most r.1) (sym (ok-injective last))
      (grade_from-IsBounded fine most rule (suc i) rows (add_row fine rule i row band t) wholes
        points
        (add_row-IsBounded fine most rule i row band t whole
          (find-HasPoints most row.total_score band rule.scale points found) h)
        graded_rest)

-- Where no band of the rule gives more than a whole number of grade points and the credit units of
-- each row are a whole number of ten-thousandths, rows that are graded earn no more credit units than
-- they attempt, and their average is no more than that number of grade points.
pub grade_rows-bounds :
    (fine most : ℕ) (rule : Rule) (rows : List ResultRow) (grades : Grades)
    → HasPoints most rule.scale
    → All (HasWholeUnits fine) rows
    → grade_rows fine rows rule ≡ ok grades
    → (grades.summary.earned_credit_units ≤ grades.summary.attempted_credit_units)
      × (coalesce grades.summary.gpa 0 ≤ most * 10000)
unfolding grade_rows grades_of
grade_rows-bounds fine most rule rows grades points whole e =
    let (result, made, same) = >>=-eq-ok (grade_from fine rule 0 rows no_totals) _ e in
    let h =
      grade_from-IsBounded fine most rule 0 rows no_totals whole points
        (record { earned_le = omega arith; quality_le = omega arith }) made in
    subst
      (λ g.
        (g.summary.earned_credit_units ≤ g.summary.attempted_credit_units)
        × (coalesce g.summary.gpa 0 ≤ most * 10000))
      (sym (ok-injective same)) (h.earned_le, average-le fine most result.1 h)
