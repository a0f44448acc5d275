-- ===== src/Grading/Scale.antt =====
-- `normalizeScale`, `findBand` and `defaultGradingRule`.
use acadid.Common.{
  ℕ, leb, ltb, find, String, Option, none, some, coalesce, List, [], ◌∷◌, Bool, true, false, ◌&&◌,
  if_some, if◌then◌else◌,
}
use acadid.Common.Outcome.{Outcome, ok, throw, bad_request, ◌>>=◌}

pub data Engine : Type 0 where
  primary_secondary tertiary_gpa : Engine

pub data RuleSource : Type 0 where
  configured default_fallback : RuleSource

-- Without `remark`, which nothing reads.
pub record Band : Type 0 where
  pub min_score : ℕ
  pub max_score : Option ℕ
  pub grade : String
  pub grade_point : Option ℕ
  pub pass : Option Bool

pub record Rule : Type 0 where
  pub uuid : Option String
  pub name : String
  pub engine : Engine
  pub source : RuleSource
  pub scale : List Band
  pub pass_mark : Option ℕ
  pub max_score : ℕ
  pub grade_point_max : Option ℕ

-- An element of the stored scale, whose fields may be missing or of another type.
pub record Candidate : Type 0 where
  pub is_object : Bool
  pub min_score : Option ℕ
  pub max_score : Option ℕ
  pub grade : Option String
  pub grade_point : Option ℕ
  pub pass : Option Bool

unfoldable pub band_of : ℕ → Candidate → Outcome Band
band_of max_score candidate =
    if candidate.is_object
    then if_some candidate.min_score
        (throw (bad_request "Each grading scale band requires minScore and grade."))
        (λ low.
          if_some candidate.grade
            (throw (bad_request "Each grading scale band requires minScore and grade."))
            (λ grade. ok (record {
              min_score = low;
              max_score = some (coalesce candidate.max_score max_score);
              grade = grade;
              grade_point = candidate.grade_point;
              pass = candidate.pass;
            })))
    else throw (bad_request "Each grading scale band must be an object.")

unfoldable pub bands_of : ℕ → List Candidate → Outcome (List Band)
unfolding band_of
bands_of max_score [] = ok []
bands_of max_score (candidate ∷ candidates) = do
  band ← band_of max_score candidate
  bands ← bands_of max_score candidates
  ok (band ∷ bands)

-- `.sort((a, b) => b.minScore - a.minScore)`, which keeps the order of equal ones.
unfoldable pub insert_band : Band → List Band → List Band
insert_band b [] = b ∷ []
insert_band b (c ∷ cs) =
    let rest = insert_band b cs in if ltb b.min_score c.min_score then c ∷ rest else b ∷ c ∷ cs

unfoldable pub sort_bands : List Band → List Band
unfolding insert_band
sort_bands [] = []
sort_bands (b ∷ bs) = insert_band b (sort_bands bs)

-- `none` for a scale that is no array
unfoldable pub normalize_scale : Option (List Candidate) → ℕ → Outcome (List Band)
unfolding bands_of sort_bands
normalize_scale scale max_score =
    if_some scale (throw (bad_request "Grading scale must be an array of bands."))
      (λ candidates. bands_of max_score candidates >>= λ bands. ok (sort_bands bands))

abbrev pub is_at_most : ℕ → Option ℕ → Bool
is_at_most score none = true
is_at_most score (some high) = leb score high

abbrev pub in_band : ℕ → Band → Bool
in_band score b = leb b.min_score score && is_at_most score b.max_score

abbrev pub find_band : ℕ → List Band → Option Band
find_band score scale = find (in_band score) scale

abbrev pub is_tertiary : Engine → Bool
is_tertiary tertiary_gpa = true
is_tertiary primary_secondary = false

abbrev pub standard_band : Engine → ℕ → ℕ → String → ℕ → Bool → Band
standard_band engine low high grade point pass = record {
  min_score = low;
  max_score = some high;
  grade = grade;
  grade_point = if is_tertiary engine then some point else none;
  pass = some pass;
}

unfoldable pub base_scale : Engine → List Band
base_scale engine =
    standard_band engine 700000 1000000 "A" 50000 true
    ∷ standard_band engine 600000 699900 "B" 40000 true
    ∷ standard_band engine 500000 599900 "C" 30000 true
    ∷ standard_band engine 450000 499900 "D" 20000 true
    ∷ standard_band engine 400000 449900 "E" 10000 true
    ∷ standard_band engine 0 399900 "F" 0 false
    ∷ []

unfoldable pub default_grading_rule : Engine → Rule
unfolding base_scale
default_grading_rule engine = record {
  uuid = none;
  name =
      if is_tertiary engine
      then "AcadID MVP 5-point GPA fallback"
      else "AcadID MVP primary/secondary fallback";
  engine = engine;
  source = default_fallback;
  scale = base_scale engine;
  pass_mark = some 400000;
  max_score = 1000000;
  grade_point_max = if is_tertiary engine then some 50000 else none;
}
