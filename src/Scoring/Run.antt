-- ===== src/Scoring/Run.antt =====
-- Scoring one interview: `_score` of app/workers/tasks/scoring_tasks.py over
-- app/modules/scoring/service.py. `reply` is what the model answers for a criterion. The JSON object
-- of signals is kept in two fields: the three entries that this job writes, and all the others.
pub mod Stored
pub mod Total
pub mod Replaced
use ai_interviewer.Base.{
  ℕ, ◌+◌, Bool, true, false, not, ◌&&◌, ◌||◌, Option, none, some, List, [], ◌∷◌, map, Result, ok,
  err, leb, ltb, if◌then◌else◌,
}
use ai_interviewer.Base.Lists.{is_empty, some_of, take}
use ai_interviewer.Base.Rows.{find, replace}
use ai_interviewer.Base.Text.{Text, strip}
use ai_interviewer.Plan.{Criterion, Plan}
use ai_interviewer.Transcript.{Turn, is_candidate}
use ai_interviewer.Scoring.{Recommendation, Outcome, DecimalError, Weighted, aggregate}
use ai_interviewer.Scoring.Evidence.{CriterionVerdict, Evidence, Rationale, Graded, score_criterion}

pub data ScoringStatus : Type 0 where
  pending scoring ready failed : ScoringStatus

pub record CriterionScore : Type 0 where
  pub ordinal : ℕ
  pub name : Text
  pub weight : ℕ
  pub score : Option ℕ
  pub rationale : Rationale
  pub evidence : List Evidence

pub record RubricSignals : Type 0 where
  pub rubric_coverage : ℕ
  pub criteria_graded : ℕ
  pub criteria_total : ℕ

pub record Score : Type 0 where
  pub interview_id : ℕ
  pub plan_id : Option ℕ
  pub status : ScoringStatus
  pub overall : Option ℕ
  pub recommendation : Option Recommendation
  pub signals : Option RubricSignals
  pub other_signals : List (Text × Text)
  pub scored_by : Option Text
  pub error : Option Text
  pub scored_at : Option ℕ
  pub criteria : List CriterionScore

abbrev pub score_key : Score → ℕ
score_key s = s.interview_id

-- the defaults of a new row
abbrev pub new_score : ℕ → Option ℕ → Score
new_score k plan_id = record {
  interview_id = k;
  plan_id = plan_id;
  status = pending;
  overall = none;
  recommendation = none;
  signals = none;
  other_signals = [];
  scored_by = none;
  error = none;
  scored_at = none;
  criteria = [];
}

-- `elif plan_id is not None: score.plan_id = plan_id`
abbrev pub set_plan : Option ℕ → Score → Score
set_plan none s = s
set_plan (some p) s = record s { plan_id = some p }

-- `ensure_score`: the row, and the table with it
unfoldable pub ensure_score : ℕ → Option ℕ → List Score → Score × List Score
ensure_score k plan_id scores = elim (find score_key k scores) [
  | none ↦ (new_score k plan_id, new_score k plan_id ∷ scores)
  | some s ↦ (set_plan plan_id s, replace score_key (set_plan plan_id s) scores)
]

unfoldable pub mark_scoring : Score → Score
mark_scoring s = record s { status = scoring; error = none }

unfoldable pub mark_failed : Text → Score → Score
mark_failed error s = record s { status = failed; error = some (take 2000 error) }

-- `score_all`
unfoldable pub score_all :
    (Text → Text)
    → (Criterion → Result Text CriterionVerdict)
    → List Turn
    → List Criterion
    → List (Criterion × Graded)
score_all lower reply turns [] = []
score_all lower reply turns (c ∷ cs) =
    (c, score_criterion lower (reply c) turns) ∷ score_all lower reply turns cs

-- `weights_and_scores`
unfoldable pub weights_and_scores : List (Criterion × Graded) → List Weighted
weights_and_scores [] = []
weights_and_scores ((c, graded) ∷ results) = (c.weight, graded.score) ∷ weights_and_scores results

-- the rows that `store` adds, from an ordinal on
unfoldable pub criterion_scores : ℕ → List (Criterion × Graded) → List CriterionScore
criterion_scores n [] = []
criterion_scores n ((c, graded) ∷ results) =
    record {
      ordinal = n;
      name = c.name;
      weight = c.weight;
      score = graded.score;
      rationale = graded.rationale;
      evidence = graded.evidence;
    }
    ∷ criterion_scores (n + 1) results

-- `weight > 0 AND weight <= 1` and `score >= 1 AND score <= 5`, of a row
abbrev pub score_valid : Option ℕ → Bool
score_valid none = true
score_valid (some n) = leb 100 n && leb n 500

unfoldable pub row_valid : CriterionScore → Bool
row_valid r = ltb 0 r.weight && (leb r.weight 10000 && score_valid r.score)

pub data ScoreError : Type 0 where
  integrity : ScoreError
  undefined_mean : DecimalError → ScoreError
  not_scored : ScoreError

-- `store`, whose flush checks the rows; `signals` are the entries that it is given, less the three that it sets
unfoldable pub store :
    ℕ
    → Text
    → List (Criterion × Graded)
    → Outcome
    → (signals : List (Text × Text)) → Score
    → Result ScoreError Score
unfolding row_valid
store now model_name results outcome signals s =
    let rows = criterion_scores 0 results in
    if some_of (λ r. not (row_valid r)) rows || not (score_valid outcome.overall)
    then err integrity
    else ok (record s {
      criteria = rows;
      overall = outcome.overall;
      recommendation = some outcome.recommendation;
      status = ready;
      scored_by = some model_name;
      scored_at = some now;
      error = none;
      signals = some (record {
        rubric_coverage = outcome.coverage;
        criteria_graded = outcome.graded_count;
        criteria_total = outcome.total_count;
      });
      other_signals = signals;
    })

-- `any(t.content.strip() for t in turns if t.speaker is Speaker.CANDIDATE)`
unfoldable pub has_spoken : List Turn → Bool
has_spoken turns = some_of (λ t. is_candidate t.speaker && not (is_empty (strip t.content))) turns

-- the results, the outcome and the name of the model
unfoldable pub assess_rubric :
    (Text → Text)
    → (Criterion → Result Text CriterionVerdict)
    → Text
    → List Turn
    → List Criterion
    → List (Criterion × Graded) × Text × Result DecimalError Outcome
assess_rubric lower reply model_name turns criteria =
    let results = score_all lower reply turns criteria in
    if has_spoken turns
    then (results, model_name, aggregate (weights_and_scores results) true)
    else ([], [], aggregate [] false)

-- the last transaction of `_score`
unfoldable pub store_outcome :
    ℕ
    → ℕ
    → Option ℕ
    → List (Criterion × Graded)
    → Text
    → Outcome
    → List Score
    → Result ScoreError (List Score)
store_outcome now k plan_id results model_name outcome scores = elim (find score_key k scores) [
  | none ↦ err not_scored
  | some s ↦
      elim (store now model_name results outcome s.other_signals (record s { plan_id = plan_id })) [
        | ok s' ↦ ok (replace score_key s' scores)
        | err e ↦ err e
      ]
]

-- the table after the first transaction, which is committed before the model is asked
unfoldable pub begin_scoring : ℕ → Plan → List Score → List Score
begin_scoring k plan scores =
    let ensured = ensure_score k (some plan.id) scores in
    replace score_key (mark_scoring ensured.0) ensured.1

-- `_score` of an interview with a plan that has a rubric; without one nothing is done
unfoldable pub score_interview :
    (Text → Text)
    → (Criterion → Result Text CriterionVerdict)
    → Text
    → ℕ
    → ℕ
    → Option Plan
    → List Turn
    → List Score
    → List Score × Result ScoreError (Option Outcome)
score_interview lower reply model_name now k none turns scores = (scores, ok none)
score_interview lower reply model_name now k (some plan) turns scores =
    let begun = begin_scoring k plan scores in
    let (results, by, outcome) = assess_rubric lower reply model_name turns plan.criteria in
    if is_empty plan.criteria then (scores, ok none) else elim outcome [
      | err e ↦ (begun, err (undefined_mean e))
      | ok o ↦ elim (store_outcome now k (some plan.id) results by o begun) [
        | ok scores' ↦ (scores', ok (some o))
        | err e ↦ (begun, err e)
      ]
    ]
