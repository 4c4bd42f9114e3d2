-- ===== src/Plan/Frozen.antt =====
-- A plan's whole life: any sequence of the edits of app/modules/question_plan/service.py, those that
-- raise changing nothing.
use ai_interviewer.Base.{
  ℕ, ◌+◌, ◌≡◌, refl, ◌∙◌, true, Option, none, some, List, [], ◌∷◌, Result, ok, err, arith,
  Result-cases, inl, inr,
}
use ai_interviewer.Base.Text.{Text}
use ai_interviewer.Plan.{Plan, frozen, is_frozen, is_editable}
use ai_interviewer.Plan.Generator.{GeneratedPlan}
use ai_interviewer.Plan.Generator.Valid.{IsValidated}
use ai_interviewer.Plan.Edits.{
  PlanError, version_conflict, QuestionWrite, CriterionWrite, guard, replace_questions,
  replace_criteria, apply_generated, mark_failed, attach_latest_resume, approve, freeze, differs,
  check_tags, criterion_names,
}
use ai_interviewer.Plan.Sound.{IsSound}
use ai_interviewer.Plan.Sound.Edits.{
  replace_questions-IsSound, replace_criteria-IsSound, apply_generated-IsSound, approve-IsSound,
  freeze-IsSound, mark_failed-IsSound, attach_latest_resume-IsSound,
}

-- a call of one of the service's functions on the plan
pub data Edit : Type 0 where
  set_questions : List QuestionWrite → Option ℕ → Edit
  set_criteria : List CriterionWrite → Option ℕ → Edit
  generate : GeneratedPlan → Text → Edit
  fail : Text → Edit
  attach : Option ℕ → Edit
  sign_off : Option ℕ → ℕ → Edit
  lock : Edit

unfoldable pub edit : Edit → Plan → Result PlanError Plan
edit (set_questions qs v) p = replace_questions p qs v
edit (set_criteria cs v) p = replace_criteria p cs v
edit (generate g m) p = apply_generated p g m
edit (fail e) p = ok (mark_failed p e)
edit (attach r) p = ok (attach_latest_resume p r)
edit (sign_off v now) p = approve p v now
edit lock p = freeze p

-- the plan after a call: as before where it raised
abbrev pub settled : Plan → Result PlanError Plan → Plan
settled p (ok q) = q
settled p (err _) = p

unfoldable pub run_edits : List Edit → Plan → Plan
run_edits [] p = p
run_edits (e ∷ es) p = run_edits es (settled p (edit e p))

-- what a frozen plan keeps
pub record SameRecord (p q : Plan) : Type 0 where
  pub status : q.status ≡ p.status
  pub questions : q.questions ≡ p.questions
  pub criteria : q.criteria ≡ p.criteria
  pub version : q.version ≡ p.version

frozen-edit : (e : Edit) (p : Plan) → p.status ≡ frozen → SameRecord p (settled p (edit e p))
unfolding edit replace_questions replace_criteria apply_generated mark_failed attach_latest_resume
    approve freeze guard is_editable is_frozen
frozen-edit (attach none) p h = ground arith
frozen-edit _ p h = ground arith

-- Once a plan is frozen no sequence of edits changes its questions, its criteria with their weights,
-- its status or its version.
pub frozen_is_permanent :
    (es : List Edit) (p : Plan) → p.status ≡ frozen → SameRecord p (run_edits es p)
unfolding run_edits
frozen_is_permanent [] p h = record {
  status = refl;
  questions = refl;
  criteria = refl;
  version = refl;
}
frozen_is_permanent (e ∷ es) p h =
    let q = settled p (edit e p) in
    let one = frozen-edit e p h in
    let rest = frozen_is_permanent es q (one.status ∙ h) in
    record {
      status = rest.status ∙ one.status;
      questions = rest.questions ∙ one.questions;
      criteria = rest.criteria ∙ one.criteria;
      version = rest.version ∙ one.version;
    }

-- the generated plans among the edits passed their validators
abbrev pub Validated : List Edit → Type 0
Validated [] = Unit
Validated (generate g _ ∷ es) = IsValidated g × Validated es
Validated (_ ∷ es) = Validated es

edit-IsSound :
    (e : Edit) (p : Plan) → Validated (e ∷ []) → IsSound p → IsSound (settled p (edit e p))
unfolding edit
edit-IsSound (set_questions qs v) p ok? s = elim (Result-cases (replace_questions p qs v)) [
  | inl (q, e) ↦ rw e (replace_questions-IsSound p q qs v s e)
  | inr (x, e) ↦ rw e s
]
edit-IsSound (set_criteria cs v) p ok? s = elim (Result-cases (replace_criteria p cs v)) [
  | inl (q, e) ↦ rw e (replace_criteria-IsSound p q cs v s e)
  | inr (x, e) ↦ rw e s
]
edit-IsSound (generate g m) p ok? s = elim (Result-cases (apply_generated p g m)) [
  | inl (q, e) ↦ rw e (apply_generated-IsSound p q g m ok?.0 e)
  | inr (x, e) ↦ rw e s
]
edit-IsSound (fail x) p ok? s = mark_failed-IsSound p x s
edit-IsSound (attach r) p ok? s = attach_latest_resume-IsSound p r s
edit-IsSound (sign_off v now) p ok? s = elim (Result-cases (approve p v now)) [
  | inl (q, e) ↦ rw e (approve-IsSound p q v now s e)
  | inr (x, e) ↦ rw e s
]
edit-IsSound lock p ok? s = elim (Result-cases (freeze p)) [
  | inl (q, e) ↦ rw e (freeze-IsSound p q s e)
  | inr (x, e) ↦ rw e s
]

Validated-cons :
    (e : Edit) (es : List Edit) → Validated (e ∷ es) → Validated (e ∷ []) × Validated es
Validated-cons (generate g m) es v = ((v.0, tt), v.1)
Validated-cons _ es v = (tt, v)

-- Any sequence of edits keeps a plan sound: its weights sum to exactly 1.0 or it has no rubric, its
-- criteria have distinct names, no question names a criterion that is not there, the ordinals count
-- up from 0, and it is not frozen empty. The generated plans have passed their validators.
pub run_edits-IsSound :
    (es : List Edit) (p : Plan) → Validated es → IsSound p → IsSound (run_edits es p)
unfolding run_edits
run_edits-IsSound [] p v s = s
run_edits-IsSound (e ∷ es) p v s =
    let (one, rest) = Validated-cons e es v in
    run_edits-IsSound es (settled p (edit e p)) rest (edit-IsSound e p one s)

-- an edit by a client that sent the version it had read
pub data Versioned (v : ℕ) : Edit → Type 0 where
  questions : (qs : List QuestionWrite) → Versioned v (set_questions qs (some v))
  criteria : (cs : List CriterionWrite) → Versioned v (set_criteria cs (some v))
  approval : (now : ℕ) → Versioned v (sign_off (some v) now)

first_edit :
    (v : ℕ) (e : Edit) (p q : Plan)
    → Versioned v e
    → edit e p ≡ ok q
    → (q.version ≡ v + 1) × (is_editable q ≡ true)
unfolding edit replace_questions replace_criteria approve guard differs is_editable is_frozen
first_edit v _ p q (questions qs) h =
    elim (Result-cases (check_tags (criterion_names p.criteria) qs)) [
      | inl (u, e) ↦ ground arith
      | inr (x, e) ↦ ground arith
    ]
first_edit v _ p q (criteria cs) h = ground arith
first_edit v _ p q (approval now) h = ground arith

second_edit :
    (v : ℕ) (e : Edit) (q : Plan)
    → Versioned v e
    → q.version ≡ v + 1
    → is_editable q ≡ true
    → edit e q ≡ err (version_conflict v (v + 1))
unfolding edit replace_questions replace_criteria approve guard differs
second_edit v _ q (questions qs) h k = ground arith
second_edit v _ q (criteria cs) h k = ground arith
second_edit v _ q (approval now) h k = ground arith

-- Of two edits made against the same version the first to be applied wins: the second is refused with
-- a version conflict, whatever the two are.
pub lost_update_refused :
    (v : ℕ) (d e : Edit) (p q : Plan)
    → Versioned v d
    → Versioned v e
    → edit d p ≡ ok q
    → edit e q ≡ err (version_conflict v (v + 1))
lost_update_refused v d e p q vd ve h =
    let (next, open_still) = first_edit v d p q vd h in second_edit v e q ve next open_still
