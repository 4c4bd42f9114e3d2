-- ===== src/Scoring/Run/Stored.antt =====
-- What a scoring run stores, against the transcript and the replies.
use mathlib.Core.Path.{subst}
use ai_interviewer.Base.{
  ℕ, ◌+◌, ◌≡◌, refl, sym, ◌∙◌, ap, ◌⊎◌, false, Option, none, some, List, [], ◌∷◌, arith, Result, ok,
  Bool-cases, Option-cases, Result-cases, inl, inr,
}
use ai_interviewer.Base.Lists.{All, is_empty}
use ai_interviewer.Base.Rows.{find, replace, find-key, find-replace_self}
use ai_interviewer.Base.Text.{Text}
use ai_interviewer.Plan.{Criterion, Plan}
use ai_interviewer.Transcript.{Turn}
use ai_interviewer.Scoring.{Outcome, Weighted, aggregate}
use ai_interviewer.Scoring.Evidence.{CriterionVerdict, Graded, score_criterion}
use ai_interviewer.Scoring.Evidence.Quotes.{Said, score_criterion-supported}
use ai_interviewer.Scoring.Run.{
  CriterionScore, Score, ready, score_key, score_all, weights_and_scores, criterion_scores, store,
  has_spoken, assess_rubric, store_outcome, begin_scoring, score_interview,
}

-- the pairs that the aggregator would be given by the stored rows
abbrev pub row_pairs : List CriterionScore → List Weighted
row_pairs [] = []
row_pairs (r ∷ rs) = (r.weight, r.score) ∷ row_pairs rs

row_pairs-criterion_scores :
    (n : ℕ) (results : List (Criterion × Graded))
    → row_pairs (criterion_scores n results) ≡ weights_and_scores results
unfolding criterion_scores weights_and_scores
row_pairs-criterion_scores n [] = refl
row_pairs-criterion_scores n ((c, g) ∷ results) =
    ap (λ ps. (c.weight, g.score) ∷ ps) (row_pairs-criterion_scores (n + 1) results)

-- a row has no score, or evidence for it that the candidate said
abbrev pub Supported : (Text → Text) → List Turn → CriterionScore → Type 0
Supported lower turns r =
    (r.score ≡ none) ⊎ ((is_empty r.evidence ≡ false) × All (Said lower turns) r.evidence)

graded-supported :
    (lower : Text → Text) (reply : Result Text CriterionVerdict) (turns : List Turn)
    → ((score_criterion lower reply turns).score ≡ none)
      ⊎ ((is_empty (score_criterion lower reply turns).evidence ≡ false)
          × All (Said lower turns) (score_criterion lower reply turns).evidence)
graded-supported lower reply turns = elim (Option-cases (score_criterion lower reply turns).score) [
  | inl e ↦ inl e
  | inr (n, e) ↦
      let (there, said, _) = score_criterion-supported lower reply turns n e in inr (there, said)
]

score_all-Supported :
    (lower : Text → Text) (reply : Criterion → Result Text CriterionVerdict) (turns : List Turn)
    (n : ℕ) (cs : List Criterion)
    → All (Supported lower turns) (criterion_scores n (score_all lower reply turns cs))
unfolding score_all criterion_scores
score_all-Supported lower reply turns n [] = tt
score_all-Supported lower reply turns n (c ∷ cs) =
    (graded-supported lower (reply c) turns, score_all-Supported lower reply turns (n + 1) cs)

-- What a successful call of `store` leaves.
record Stores (results : List (Criterion × Graded)) (o : Outcome) (s s' : Score) : Type 0 where
  rows : s'.criteria ≡ criterion_scores 0 results
  overall : s'.overall ≡ o.overall
  recommendation : s'.recommendation ≡ some o.recommendation
  key : s'.interview_id ≡ s.interview_id
  finished : s'.status ≡ ready

store-Stores :
    (now : ℕ) (by : Text) (results : List (Criterion × Graded)) (o : Outcome)
    (signals : List (Text × Text)) (s s' : Score)
    → store now by results o signals s ≡ ok s'
    → Stores results o s s'
unfolding store
store-Stores now by results o signals s s' h = record {
  rows = ground arith;
  overall = ground arith;
  recommendation = ground arith;
  key = ground arith;
  finished = ground arith;
}

store_outcome-Stores :
    (now k : ℕ) (plan_id : Option ℕ) (results : List (Criterion × Graded)) (by : Text) (o : Outcome)
    (scores scores' : List Score)
    → store_outcome now k plan_id results by o scores ≡ ok scores'
    → (s : Score) × ((s' : Score) × (find score_key k scores' ≡ some s') × Stores results o s s')
unfolding store_outcome
store_outcome-Stores now k plan_id results by o scores scores' h =
    elim (Option-cases (find score_key k scores)) [
      | inl absent ↦ absurd (ground arith)
      | inr (s, found) ↦
          elim (Result-cases
            (store now by results o s.other_signals (record s { plan_id = plan_id }))) [
              | inl (s', stored) ↦
                  let stores =
                    store-Stores now by results o s.other_signals (record s { plan_id = plan_id })
                      s' stored in
                  let same : scores' ≡ replace score_key s' scores = ground arith in
                  let key = stores.key ∙ find-key score_key k s scores found in
                  (
                    record s { plan_id = plan_id },
                    (s', rw same (find-replace_self score_key k s' s scores key found), stores),
                  )
              | inr (e, failed) ↦ absurd (ground arith)
            ]
    ]

pub assess_rubric-aggregate :
    (lower : Text → Text) (reply : Criterion → Result Text CriterionVerdict) (model_name : Text)
    (turns : List Turn) (cs : List Criterion)
    → (assess_rubric lower reply model_name turns cs).2
      ≡ aggregate
          (weights_and_scores (assess_rubric lower reply model_name turns cs).0)
          (has_spoken turns)
unfolding assess_rubric weights_and_scores
assess_rubric-aggregate lower reply model_name turns cs = elim (Bool-cases (has_spoken turns)) [
  | inl e ↦ rw e refl
  | inr e ↦ rw e refl
]

assess_rubric-Supported :
    (lower : Text → Text) (reply : Criterion → Result Text CriterionVerdict) (model_name : Text)
    (turns : List Turn) (cs : List Criterion)
    → All
        (Supported lower turns)
        (criterion_scores 0 (assess_rubric lower reply model_name turns cs).0)
unfolding assess_rubric
assess_rubric-Supported lower reply model_name turns cs = elim (Bool-cases (has_spoken turns)) [
  | inl e ↦ rw e (score_all-Supported lower reply turns 0 cs)
  | inr e ↦ rw e (unfold criterion_scores in tt)
]

-- What a row says of the run that stored it.
pub record Backed (lower : Text → Text) (turns : List Turn) (o : Outcome) (s : Score) : Type 0 where
  pub recomputed : aggregate (row_pairs s.criteria) (has_spoken turns) ≡ ok o
  pub overall : s.overall ≡ o.overall
  pub recommendation : s.recommendation ≡ some o.recommendation
  pub supported : All (Supported lower turns) s.criteria
  pub finished : s.status ≡ ready

Stores-Backed :
    (lower : Text → Text) (reply : Criterion → Result Text CriterionVerdict) (model_name : Text)
    (turns : List Turn) (cs : List Criterion) (o : Outcome) (s s' : Score)
    → (assess_rubric lower reply model_name turns cs).2 ≡ ok o
    → Stores (assess_rubric lower reply model_name turns cs).0 o s s'
    → Backed lower turns o s'
Stores-Backed lower reply model_name turns cs o s s' h stores =
    let results = (assess_rubric lower reply model_name turns cs).0 in
    let rows = stores.rows in
    record {
      recomputed =
          rw (rows, row_pairs-criterion_scores 0 results)
            (sym (assess_rubric-aggregate lower reply model_name turns cs) ∙ h);
      overall = stores.overall;
      recommendation = stores.recommendation;
      supported = rw rows (assess_rubric-Supported lower reply model_name turns cs);
      finished = stores.finished;
    }

-- A run that reports an outcome leaves a row that bears it out: the aggregate of the stored rows is that
-- outcome, the stored number and recommendation are the outcome's, and every stored score has evidence that
-- the candidate said.
pub score_interview-Backed :
    (lower : Text → Text) (reply : Criterion → Result Text CriterionVerdict) (model_name : Text)
    (now k : ℕ) (plan : Plan) (turns : List Turn) (scores : List Score) (o : Outcome)
    → (score_interview lower reply model_name now k (some plan) turns scores).1 ≡ ok (some o)
    → (s : Score) × (find score_key k
          (score_interview lower reply model_name now k (some plan) turns scores).0
        ≡ some s)
      × Backed lower turns o s
unfolding score_interview
score_interview-Backed lower reply model_name now k plan turns scores o h =
    let begun = begin_scoring k plan scores in
    let a = assess_rubric lower reply model_name turns plan.criteria in
    elim (Bool-cases (is_empty plan.criteria)) [
      | inl e ↦ absurd (ground arith)
      | inr e ↦ elim (Result-cases a.2) [
        | inr (x, failed) ↦ absurd (ground arith)
        | inl (p, assessed) ↦
            elim (Result-cases (store_outcome now k (some plan.id) a.0 a.1 p begun)) [
              | inr (x, failed) ↦ absurd (ground arith)
              | inl (after, stored) ↦
                  let same : p ≡ o = ground arith in
                  let (s, (s', found, stores)) =
                    store_outcome-Stores now k (some plan.id) a.0 a.1 p begun after stored in
                  subst
                    (λ q.
                      (s : Score) × (find score_key k
                          (score_interview lower reply model_name now k (some plan) turns scores).0
                        ≡ some s)
                      × Backed lower turns q s)
                    same
                    (
                      s',
                      rw (score_interview, e, assessed, stored) found,
                      Stores-Backed lower reply model_name turns plan.criteria p s s' assessed
                          stores,
                    )
            ]
      ]
    ]
