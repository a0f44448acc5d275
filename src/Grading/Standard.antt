-- ===== src/Grading/Standard.antt =====
-- The bands of the rule that is used where none is configured.
use acadid.Common.{
  ℕ, ◌≤◌, ◌%◌, leb, ltb, none, some, Bool, true, false, ◌&&◌, ◌||◌, ◌≡◌, if◌then◌else◌, arith,
}
use acadid.Grading.Scale.{Engine, Band, find_band, base_scale, standard_band}

-- The scale as thresholds: a band, its grade point, and whether it is a pass.
unfoldable pub standard : Engine → ℕ → Band
standard engine score =
    if leb 700000 score
    then standard_band engine 700000 1000000 "A" 50000 true
    else if leb 600000 score
    then standard_band engine 600000 699900 "B" 40000 true
    else if leb 500000 score
    then standard_band engine 500000 599900 "C" 30000 true
    else if leb 450000 score
    then standard_band engine 450000 499900 "D" 20000 true
    else if leb 400000 score
    then standard_band engine 400000 449900 "E" 10000 true
    else standard_band engine 0 399900 "F" 0 false

-- Between two bands of the scale.
abbrev pub in_gap : ℕ → Bool
in_gap s =
    (ltb 699900 s && ltb s 700000)
    || ((ltb 599900 s && ltb s 600000)
        || ((ltb 499900 s && ltb s 500000)
            || ((ltb 449900 s && ltb s 450000) || (ltb 399900 s && ltb s 400000))))

-- A score of at most 100 has the default band that the thresholds give, unless it falls between the
-- hundredth below a threshold and the threshold: then it has none.
pub find_band-base_scale :
    (engine : Engine) (score : ℕ)
    → score ≤ 1000000
    → find_band score (base_scale engine)
      ≡ (if in_gap score then none else some (standard engine score))
unfolding base_scale standard
find_band-base_scale engine score most = ground arith

-- No whole number of hundredths falls between two bands.
pub in_gap-hundredths : (score : ℕ) → score % 100 ≡ 0 → in_gap score ≡ false
in_gap-hundredths score whole = ground arith
