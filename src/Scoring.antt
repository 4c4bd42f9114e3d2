-- ===== src/Scoring.antt =====
-- Criterion scores to one overall number and a band: app/modules/scoring/aggregator.py. A weight is in
-- ten-thousandths and a score in hundredths, the scales of their columns, so the arithmetic on them is
-- exact; only the two quotients are rounded.
pub mod Overall
pub mod Graded
pub mod Mean
pub mod Evidence
pub mod Run
use ai_interviewer.Base.{
  ℕ, ◌+◌, ◌*◌, Bool, true, false, not, ◌&&◌, ◌||◌, Option, none, some, List, [], ◌∷◌, Result, ok,
  err, ltb, leb, ◌==◌, if◌then◌else◌,
}
use ai_interviewer.Base.Lists.{length, is_empty}
use ai_interviewer.Plan.Rounding.{round_half_even, round_half_up}

pub data Recommendation : Type 0 where
  strong_hire hire borderline no_hire insufficient_evidence : Recommendation

-- MIN_BAND, MAX_BAND and MIN_COVERAGE, in hundredths
abbrev pub min_band : ℕ
min_band = 100

abbrev pub max_band : ℕ
max_band = 500

abbrev pub min_coverage : ℕ
min_coverage = 50

pub record Outcome : Type 0 where
  pub overall : Option ℕ
  pub recommendation : Recommendation
  pub coverage : ℕ
  pub graded_count : ℕ
  pub total_count : ℕ

-- `decimal.InvalidOperation`, of a quotient of zeros
pub data DecimalError : Type 0 where
  invalid_operation : DecimalError

unfoldable pub band_for : ℕ → Recommendation
band_for overall =
    if leb 450 overall
    then strong_hire
    else if leb 350 overall
    then hire
    else if leb 250 overall
    then borderline
    else no_hire

abbrev pub Weighted : Type 0
Weighted = ℕ × Option ℕ

unfoldable pub total_weight : List Weighted → ℕ
total_weight [] = 0
total_weight ((weight, _) ∷ scored) = weight + total_weight scored

-- `[(weight, score) for weight, score in scored if score is not None]`
unfoldable pub graded_of : List Weighted → List (ℕ × ℕ)
graded_of [] = []
graded_of ((weight, none) ∷ scored) = graded_of scored
graded_of ((weight, some score) ∷ scored) = (weight, score) ∷ graded_of scored

unfoldable pub graded_weight : List (ℕ × ℕ) → ℕ
graded_weight [] = 0
graded_weight ((weight, _) ∷ graded) = weight + graded_weight graded

unfoldable pub weighted_sum : List (ℕ × ℕ) → ℕ
weighted_sum [] = 0
weighted_sum ((weight, score) ∷ graded) = weight * score + weighted_sum graded

-- `min(max(overall, MIN_BAND), MAX_BAND)`
unfoldable pub clamp : ℕ → ℕ
clamp overall =
    let raised = (if ltb overall min_band then min_band else overall) in
    if ltb max_band raised then max_band else raised

-- nothing was graded
unfoldable pub ungraded : List Weighted → Bool → Outcome
ungraded scored participated =
    let spoke = participated && not (total_weight scored == 0) in
    record {
      overall = if spoke then some min_band else none;
      recommendation = if spoke then no_hire else insufficient_evidence;
      coverage = 0;
      graded_count = 0;
      total_count = length scored;
    }

unfoldable pub aggregate : List Weighted → Bool → Result DecimalError Outcome
aggregate scored participated =
    let graded = graded_of scored in
    let coverage = round_half_even (100 * graded_weight graded) (total_weight scored) in
    let overall = clamp (round_half_up (weighted_sum graded) (graded_weight graded)) in
    if total_weight scored == 0 || is_empty graded
    then ok (ungraded scored participated)
    else if ltb coverage min_coverage && not participated
    then ok (record {
      overall = none;
      recommendation = insufficient_evidence;
      coverage = coverage;
      graded_count = length graded;
      total_count = length scored;
    })
    else if graded_weight graded == 0
    then err invalid_operation
    else ok (record {
      overall = some overall;
      recommendation = band_for overall;
      coverage = coverage;
      graded_count = length graded;
      total_count = length scored;
    })
