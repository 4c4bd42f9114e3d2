-- ===== src/Scoring/Run/Replaced.antt =====
-- A scoring run over the row that an earlier one left.
use ai_interviewer.Base.{
  ℕ, ◌≡◌, refl, sym, ◌∙◌, ap, true, false, not, Option, none, some, List, arith, Result, ok,
  Bool-cases, Result-cases, inl, inr,
}
use ai_interviewer.Base.Lists.{is_empty, some_of}
use ai_interviewer.Base.Rows.{find, replace, find-key, find-replace_self}
use ai_interviewer.Base.Text.{Text}
use ai_interviewer.Plan.{Criterion, Plan}
use ai_interviewer.Transcript.{Turn}
use ai_interviewer.Scoring.{Outcome}
use ai_interviewer.Scoring.Evidence.{CriterionVerdict, Graded}
use ai_interviewer.Scoring.Run.{
  Score, ready, score_key, criterion_scores, score_valid, row_valid, store, assess_rubric,
  store_outcome, begin_scoring, score_interview,
}
use ai_interviewer.Scoring.Run.Total.{signals_of, begin_scoring-found, store_outcome-ok}

-- the row that a run leaves, from its own results and the signals that were there
abbrev stored_row :
    ℕ
    → ℕ
    → Option ℕ
    → List (Criterion × Graded)
    → Text
    → Outcome
    → (signals : List (Text × Text)) → Score
stored_row now k plan_id results by o signals = record {
  interview_id = k;
  plan_id = plan_id;
  status = ready;
  overall = o.overall;
  recommendation = some o.recommendation;
  signals = some (record {
    rubric_coverage = o.coverage;
    criteria_graded = o.graded_count;
    criteria_total = o.total_count;
  });
  other_signals = signals;
  scored_by = some by;
  error = none;
  scored_at = some now;
  criteria = criterion_scores 0 results;
}

store-stored_row :
    (now : ℕ) (by : Text) (results : List (Criterion × Graded)) (o : Outcome)
    (signals : List (Text × Text)) (s s' : Score)
    → store now by results o signals s ≡ ok s'
    → (s' ≡ stored_row now s.interview_id s.plan_id results by o signals)
      × (some_of (λ r. not (row_valid r)) (criterion_scores 0 results) ≡ false)
      × (score_valid o.overall ≡ true)
unfolding store
store-stored_row now by results o signals s s' h = (ground arith, ground arith, ground arith)

store_outcome-stored_row :
    (now k : ℕ) (plan_id : Option ℕ) (results : List (Criterion × Graded)) (by : Text) (o : Outcome)
    (s : Score) (scores scores' : List Score)
    → find score_key k scores ≡ some s
    → store_outcome now k plan_id results by o scores ≡ ok scores'
    → (find score_key k scores' ≡ some (stored_row now k plan_id results by o s.other_signals))
      × (some_of (λ r. not (row_valid r)) (criterion_scores 0 results) ≡ false)
      × (score_valid o.overall ≡ true)
unfolding store_outcome
store_outcome-stored_row now k plan_id results by o s scores scores' found h =
    elim (Result-cases (store now by results o s.other_signals (record s { plan_id = plan_id }))) [
      | inr (e, failed) ↦ absurd (ground arith)
      | inl (s', stored) ↦
          let (row, rows, number) =
            store-stored_row now by results o s.other_signals (record s { plan_id = plan_id }) s'
              stored in
          let key = find-key score_key k s scores found in
          let same : scores' ≡ replace score_key s' scores = ground arith in
          let keyed : s'.interview_id ≡ k = ap score_key row ∙ key in
          (
            rw same (find-replace_self score_key k s' s scores keyed found)
                ∙ ap some
                    (row ∙ ap (λ n. stored_row now n plan_id results by o s.other_signals) key),
            rows,
            number,
          )
    ]

-- What a run that ends with an outcome went through.
record Went (lower : Text → Text) (reply : Criterion → Result Text CriterionVerdict)
    (model_name : Text) (now k : ℕ) (plan : Plan) (turns : List Turn) (scores scores' : List Score)
    (o : Outcome) : Type 0 where
  asked : is_empty plan.criteria ≡ false
  assessed : (assess_rubric lower reply model_name turns plan.criteria).2 ≡ ok o
  stored :
      store_outcome now k
        (some plan.id)
        (assess_rubric lower reply model_name turns plan.criteria).0
        (assess_rubric lower reply model_name turns plan.criteria).1
        o
        (begin_scoring k plan scores)
      ≡ ok scores'

score_interview-Went :
    (lower : Text → Text) (reply : Criterion → Result Text CriterionVerdict) (model_name : Text)
    (now k : ℕ) (plan : Plan) (turns : List Turn) (scores : List Score) (o : Outcome)
    → (score_interview lower reply model_name now k (some plan) turns scores).1 ≡ ok (some o)
    → Went lower reply model_name now k plan turns scores
        (score_interview lower reply model_name now k (some plan) turns scores).0
        o
unfolding score_interview
score_interview-Went lower reply model_name now k plan turns scores o h =
    let begun = begin_scoring k plan scores in
    let a = assess_rubric lower reply model_name turns plan.criteria in
    elim (Bool-cases (is_empty plan.criteria)) [
      | inl e ↦ absurd (ground arith)
      | inr e ↦ elim (Result-cases a.2) [
        | inr (x, failed) ↦ absurd (ground arith)
        | inl (p, assessed) ↦
            elim (Result-cases (store_outcome now k (some plan.id) a.0 a.1 p begun)) [
              | inr (x, failed) ↦ absurd (ground arith)
              | inl (after, stored) ↦
                  let same : p ≡ o = ground arith in
                  record {
                    asked = e;
                    assessed = assessed ∙ ap ok same;
                    stored = rw (sym same) (ground arith);
                  }
            ]
      ]
    ]

Went-score_interview :
    (lower : Text → Text) (reply : Criterion → Result Text CriterionVerdict) (model_name : Text)
    (now k : ℕ) (plan : Plan) (turns : List Turn) (scores scores' : List Score) (o : Outcome)
    → Went lower reply model_name now k plan turns scores scores' o
    → score_interview lower reply model_name now k (some plan) turns scores ≡ (scores', ok (some o))
unfolding score_interview
Went-score_interview lower reply model_name now k plan turns scores scores' o w =
    rw (score_interview, w.asked, w.assessed, w.stored) refl

-- Where a run ends with an outcome, the same run over any other table of scores, one where the interview was
-- scored before included, ends with the same outcome. Each leaves the same row for the interview, except
-- that the signals under keys other than the three of the rubric are those that its own table had there.
pub score_interview-replaces :
    (lower : Text → Text) (reply : Criterion → Result Text CriterionVerdict) (model_name : Text)
    (now k : ℕ) (plan : Plan) (turns : List Turn) (scores others : List Score) (o : Outcome)
    → (score_interview lower reply model_name now k (some plan) turns scores).1 ≡ ok (some o)
    → ((score_interview lower reply model_name now k (some plan) turns others).1 ≡ ok (some o))
      × ((r : Score) × (find score_key k
              (score_interview lower reply model_name now k (some plan) turns scores).0
            ≡ some r)
          × (r.other_signals ≡ signals_of k scores)
          × (find score_key k
                (score_interview lower reply model_name now k (some plan) turns others).0
              ≡ some (record r { other_signals = signals_of k others })))
score_interview-replaces lower reply model_name now k plan turns scores others o h =
    let a = assess_rubric lower reply model_name turns plan.criteria in
    let w = score_interview-Went lower reply model_name now k plan turns scores o h in
    let (s0, found0, kept0) = begin_scoring-found k plan scores in
    let (row, rows, number) =
      store_outcome-stored_row now k (some plan.id) a.0 a.1 o s0 (begin_scoring k plan scores)
        (score_interview lower reply model_name now k (some plan) turns scores).0 found0 w.stored in
    let (s, found, kept) = begin_scoring-found k plan others in
    let (after, stored) =
      store_outcome-ok now k (some plan.id) a.0 a.1 o s (begin_scoring k plan others) found rows
        number in
    let again =
      Went-score_interview lower reply model_name now k plan turns others after o
        (record { asked = w.asked; assessed = w.assessed; stored = stored }) in
    let (row', _, _) =
      store_outcome-stored_row now k (some plan.id) a.0 a.1 o s (begin_scoring k plan others) after
        found stored in
    (
      ap (λ r. r.1) again,
      (
        stored_row now k (some plan.id) a.0 a.1 o s0.other_signals,
        row,
        kept0,
        ap (λ r. find score_key k r.0) again
            ∙ row'
            ∙ ap (λ x. some (stored_row now k (some plan.id) a.0 a.1 o x)) kept,
      ),
    )
