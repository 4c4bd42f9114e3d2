-- ===== src/Scoring/Run/Total.antt =====
-- The outcome of a scoring run, by what the model answers.
use ai_interviewer.Base.{
  ℕ, ◌+◌, ◌≤◌, ◌<◌, ◌≡◌, refl, sym, ◌∙◌, Bool, true, false, not, Option, none, some, List, [], ◌∷◌,
  arith, Result, ok, Bool-cases, Option-cases, Result-cases, inl, inr, eq_refl,
}
use ai_interviewer.Base.Lists.{All, is_empty, some_of}
use ai_interviewer.Base.Rows.{find, find-key, find-replace_self}
use ai_interviewer.Base.Text.{Text}
use ai_interviewer.Plan.{Criterion, Plan}
use ai_interviewer.Transcript.{Turn}
use ai_interviewer.Scoring.{Outcome, Weighted, aggregate}
use ai_interviewer.Scoring.Overall.{aggregate-Consistent}
use ai_interviewer.Scoring.Graded.{aggregate-ok}
use ai_interviewer.Scoring.Evidence.{CriterionVerdict, Graded, score_criterion}
use ai_interviewer.Scoring.Evidence.Quotes.{score_criterion-supported}
use ai_interviewer.Scoring.Run.{
  Score, score_key, set_plan, ensure_score, mark_scoring, score_all, weights_and_scores,
  criterion_scores, score_valid, row_valid, store, has_spoken, assess_rubric, store_outcome,
  begin_scoring, score_interview,
}
use ai_interviewer.Scoring.Run.Stored.{assess_rubric-aggregate}

-- the check on the weight of a criterion
abbrev pub Weighs : Criterion → Type 0
Weighs c = (0 < c.weight) × (c.weight ≤ 10000)

-- the model's scores have passed their validator
abbrev pub InBand : (Criterion → Result Text CriterionVerdict) → Type 0
InBand reply =
    (c : Criterion) (v : CriterionVerdict) (n : ℕ)
    → reply c ≡ ok v
    → v.score ≡ some n
    → (100 ≤ n) × (n ≤ 500)

graded-valid :
    (lower : Text → Text) (reply : Criterion → Result Text CriterionVerdict) (turns : List Turn)
    (c : Criterion)
    → InBand reply
    → score_valid (score_criterion lower (reply c) turns).score ≡ true
graded-valid lower reply turns c b =
    elim (Option-cases (score_criterion lower (reply c) turns).score) [
      | inl e ↦ rw e refl
      | inr (n, e) ↦
          let (_, _, (v, answered, scored)) = score_criterion-supported lower (reply c) turns n e in
          let (low, high) = b c v n answered scored in rw e (ground arith)
    ]

score_all-valid :
    (lower : Text → Text) (reply : Criterion → Result Text CriterionVerdict) (turns : List Turn)
    (n : ℕ) (cs : List Criterion)
    → InBand reply
    → All Weighs cs
    → some_of (λ r. not (row_valid r)) (criterion_scores n (score_all lower reply turns cs)) ≡ false
unfolding score_all criterion_scores row_valid
score_all-valid lower reply turns n [] b w = refl
score_all-valid lower reply turns n (c ∷ cs) b w = ground (
  arith,
  graded-valid lower reply turns c b,
  score_all-valid lower reply turns (n + 1) cs b w.1,
  w.0,
)

assess_rubric-valid :
    (lower : Text → Text) (reply : Criterion → Result Text CriterionVerdict) (model_name : Text)
    (turns : List Turn) (cs : List Criterion)
    → InBand reply
    → All Weighs cs
    → some_of
        (λ r. not (row_valid r))
        (criterion_scores 0 (assess_rubric lower reply model_name turns cs).0)
      ≡ false
unfolding assess_rubric criterion_scores
assess_rubric-valid lower reply model_name turns cs b w = elim (Bool-cases (has_spoken turns)) [
  | inl e ↦ rw e (score_all-valid lower reply turns 0 cs b w)
  | inr e ↦ rw e refl
]

score_all-positive :
    (lower : Text → Text) (reply : Criterion → Result Text CriterionVerdict) (turns : List Turn)
    (cs : List Criterion)
    → All Weighs cs
    → All (λ p. 0 < p.0) (weights_and_scores (score_all lower reply turns cs))
unfolding score_all weights_and_scores
score_all-positive lower reply turns [] w = tt
score_all-positive lower reply turns (c ∷ cs) w =
    (w.0.0, score_all-positive lower reply turns cs w.1)

assess_rubric-ok :
    (lower : Text → Text) (reply : Criterion → Result Text CriterionVerdict) (model_name : Text)
    (turns : List Turn) (cs : List Criterion)
    → All Weighs cs
    → (o : Outcome) × ((assess_rubric lower reply model_name turns cs).2 ≡ ok o)
unfolding assess_rubric
assess_rubric-ok lower reply model_name turns cs w = elim (Bool-cases (has_spoken turns)) [
  | inl e ↦ rw e (
      aggregate-ok (weights_and_scores (score_all lower reply turns cs)) true
        (score_all-positive lower reply turns cs w))
  | inr e ↦ rw e (aggregate-ok [] false tt)
]

overall-valid :
    (scored : List Weighted) (p : Bool) (o : Outcome)
    → aggregate scored p ≡ ok o
    → score_valid o.overall ≡ true
overall-valid scored p o h = elim (aggregate-Consistent scored p o h) [
  | inl (nothing_said, _) ↦ rw nothing_said refl
  | inr (n, e, low, high, _) ↦ rw e (ground arith)
]

ensure_score-found :
    (k p : ℕ) (scores : List Score)
    → ((ensure_score k (some p) scores).0.interview_id ≡ k)
      × (find score_key k (ensure_score k (some p) scores).1
          ≡ some (ensure_score k (some p) scores).0)
unfolding ensure_score
ensure_score-found k p scores = elim (Option-cases (find score_key k scores)) [
  | inl e ↦ rw (ensure_score, e) (refl, unfold find in ground (arith, eq_refl k))
  | inr (s, e) ↦
      let key = find-key score_key k s scores e in
      rw (ensure_score, e) (key, find-replace_self score_key k (set_plan (some p) s) s scores key e)
]

-- the signals of the row for an interview, those apart that the job writes
abbrev pub signals_of : ℕ → List Score → List (Text × Text)
signals_of k scores = elim (find score_key k scores) [ none ↦ [] | some s ↦ s.other_signals ]

ensure_score-signals :
    (k p : ℕ) (scores : List Score)
    → (ensure_score k (some p) scores).0.other_signals ≡ signals_of k scores
unfolding ensure_score
ensure_score-signals k p scores = elim (Option-cases (find score_key k scores)) [
  | inl e ↦ rw (ensure_score, signals_of, e) refl
  | inr (s, e) ↦ rw (ensure_score, signals_of, e) refl
]

pub begin_scoring-found :
    (k : ℕ) (plan : Plan) (scores : List Score)
    → (s : Score) × (find score_key k (begin_scoring k plan scores) ≡ some s)
      × (s.other_signals ≡ signals_of k scores)
unfolding begin_scoring mark_scoring
begin_scoring-found k plan scores =
    let ensured = ensure_score k (some plan.id) scores in
    let (key, found) = ensure_score-found k plan.id scores in
    (
      mark_scoring ensured.0,
      unfold mark_scoring in
          find-replace_self score_key k (mark_scoring ensured.0) ensured.0 ensured.1 key found,
      ensure_score-signals k plan.id scores,
    )

pub store_outcome-ok :
    (now k : ℕ) (plan_id : Option ℕ) (results : List (Criterion × Graded)) (by : Text) (o : Outcome)
    (s : Score) (scores : List Score)
    → find score_key k scores ≡ some s
    → some_of (λ r. not (row_valid r)) (criterion_scores 0 results) ≡ false
    → score_valid o.overall ≡ true
    → (scores' : List Score) × (store_outcome now k plan_id results by o scores ≡ ok scores')
unfolding store_outcome store
store_outcome-ok now k plan_id results by o s scores found rows number =
    elim (Result-cases (store_outcome now k plan_id results by o scores)) [
      | inl done ↦ done
      | inr (e, failed) ↦ absurd (ground arith)
    ]

-- With a rubric whose weights pass the check of the table, and a model whose scores pass their validator,
-- a run always ends with an outcome, whatever else the model answers and whatever was stored before.
pub score_interview-ok :
    (lower : Text → Text) (reply : Criterion → Result Text CriterionVerdict) (model_name : Text)
    (now k : ℕ) (plan : Plan) (turns : List Turn) (scores : List Score)
    → is_empty plan.criteria ≡ false
    → All Weighs plan.criteria
    → InBand reply
    → (o : Outcome) × ((score_interview lower reply model_name now k (some plan) turns scores).1
        ≡ ok (some o))
score_interview-ok lower reply model_name now k plan turns scores asked w b =
    let a = assess_rubric lower reply model_name turns plan.criteria in
    let (o, assessed) = assess_rubric-ok lower reply model_name turns plan.criteria w in
    let (s, found, _) = begin_scoring-found k plan scores in
    let number =
      overall-valid (weights_and_scores a.0) (has_spoken turns) o
        (sym (assess_rubric-aggregate lower reply model_name turns plan.criteria) ∙ assessed) in
    let (after, stored) =
      store_outcome-ok now k (some plan.id) a.0 a.1 o s (begin_scoring k plan scores) found
        (assess_rubric-valid lower reply model_name turns plan.criteria b w) number in
    (o, unfold score_interview in rw (score_interview, asked, assessed, stored) refl)
