-- ===== src/Plan/Edits.antt =====
-- The functions of app/modules/question_plan/service.py that change a plan. A call that raises has
-- no new plan: the session that it runs on is rolled back. The checks that the tables make on a
-- flush (app/models/question_plan.py) raise `integrity`.
use ai_interviewer.Base.{
  ℕ, suc, ◌+◌, ◌-◌, ◌*◌, Bool, true, false, not, ◌&&◌, ◌||◌, Option, none, some, List, [], ◌∷◌,
  Result, ok, raise_if, ◌>>◌, ltb, leb, ◌==◌, if◌then◌else◌, or_else,
}
use ai_interviewer.Base.Lists.{take, sum, some_of, is_empty}
use ai_interviewer.Base.Text.{Text, strip, mem_text, all_distinct}
use ai_interviewer.Plan.{
  Question, Criterion, Plan, approved, draft, frozen, ready, generating, failed, is_frozen,
  is_editable, is_ready, GenerationStatus,
}
use ai_interviewer.Plan.Rounding.{round_half_even}
use ai_interviewer.Plan.Generator.{GeneratedQuestion, GeneratedCriterion, GeneratedPlan}

pub data PlanError : Type 0 where
  plan_frozen duplicate_names not_generated incomplete empty_plan integrity : PlanError
  version_conflict : ℕ → ℕ → PlanError
  unknown_criterion : Text → PlanError
  weights_off weights_inexact : ℕ → PlanError

-- a question as the API hands it over; an absent key is `none`
pub record QuestionWrite : Type 0 where
  pub body : Text
  pub competency : Option Text
  pub follow_up_hints : List Text
  pub time_budget_secs : ℕ

-- a criterion as the API hands it over, its weight `weight / unit`
pub record CriterionWrite : Type 0 where
  pub name : Text
  pub description : Option Text
  pub weight : ℕ
  pub unit : ℕ
  pub descriptors : List (Text × Text)

abbrev pub criterion_names : List Criterion → List Text
criterion_names [] = []
criterion_names (c ∷ cs) = c.name ∷ criterion_names cs

abbrev pub weights : List Criterion → List ℕ
weights [] = []
weights (c ∷ cs) = c.weight ∷ weights cs

abbrev is_not_space : ℕ → Bool
is_not_space c = not (c == 32)

-- `length(btrim(body)) > 0`, of every row
unfoldable pub bodies_not_blank : List Question → Bool
bodies_not_blank [] = true
bodies_not_blank (q ∷ qs) = some_of is_not_space q.body && bodies_not_blank qs

-- `weight > 0 AND weight <= 1`, of every row
unfoldable pub weights_in_range : List Criterion → Bool
weights_in_range [] = true
weights_in_range (c ∷ cs) = ltb 0 c.weight && leb c.weight 10000 && weights_in_range cs

unfoldable pub differs : Option ℕ → ℕ → Bool
differs none version = false
differs (some e) version = not (e == version)

-- `_guard`
unfoldable pub guard : Plan → Option ℕ → Result PlanError (Unit {0})
unfolding differs
guard p expected = do
  raise_if (not (is_editable p)) plan_frozen
  raise_if (differs expected p.version) (version_conflict (or_else expected 0) p.version)

-- `(question.get("competency") or "").strip()`
unfoldable pub tag : Option Text → Text
tag c = strip (or_else c [])

-- the loop over `questions` that looks for an unknown criterion
unfoldable pub check_tags : List Text → List QuestionWrite → Result PlanError (Unit {0})
unfolding tag
check_tags valid [] = ok tt
check_tags valid (q ∷ qs) =
    raise_if (not (is_empty (tag q.competency)) && not (mem_text (tag q.competency) valid))
      (unknown_criterion (tag q.competency))
    >> check_tags valid qs

-- `text or None`
abbrev pub or_none : Text → Option Text
or_none t = if is_empty t then none else some t

-- `question.get("time_budget_secs") or 180`
abbrev pub or_default : ℕ → ℕ
or_default n = if n == 0 then 180 else n

unfoldable pub question_rows : ℕ → List QuestionWrite → List Question
unfolding tag
question_rows n [] = []
question_rows n (q ∷ qs) =
    record {
      ordinal = n;
      body = strip q.body;
      competency = or_none (tag q.competency);
      follow_up_hints = q.follow_up_hints;
      time_budget_secs = or_default q.time_budget_secs;
    }
    ∷ question_rows (suc n) qs

unfoldable pub replace_questions : Plan → List QuestionWrite → Option ℕ → Result PlanError Plan
replace_questions p qs expected = do
  guard p expected
  check_tags (criterion_names p.criteria) qs
  let rows = question_rows 0 qs
  raise_if (not (bodies_not_blank rows)) integrity
  ok (record p { questions = rows; version = p.version + 1 })

unfoldable pub criterion_rows : ℕ → List CriterionWrite → List Criterion
criterion_rows n [] = []
criterion_rows n (c ∷ cs) =
    record {
      ordinal = n;
      name = strip c.name;
      description = c.description;
      weight = round_half_even (c.weight * 10000) c.unit;
      descriptors = c.descriptors;
    }
    ∷ criterion_rows (suc n) cs

-- `question.competency and question.competency not in surviving`
unfoldable pub is_orphan : List Text → Option Text → Bool
is_orphan surviving none = false
is_orphan surviving (some c) = not (is_empty c) && not (mem_text c surviving)

unfoldable pub clear_orphans : List Text → List Question → List Question
unfolding is_orphan
clear_orphans surviving [] = []
clear_orphans surviving (q ∷ qs) =
    (if is_orphan surviving q.competency then record q { competency = none } else q)
    ∷ clear_orphans surviving qs

-- `abs(total - 1) > WEIGHT_TOLERANCE`
abbrev pub is_off : ℕ → Bool
is_off total = ltb 1 (total - 10000 + (10000 - total))

unfoldable pub replace_criteria : Plan → List CriterionWrite → Option ℕ → Result PlanError Plan
replace_criteria p cs expected = do
  guard p expected
  let rows = criterion_rows 0 cs
  let total = sum (weights rows)
  raise_if (is_off total) (weights_off total)
  raise_if (not (total == 10000)) (weights_inexact total)
  raise_if (not (all_distinct (criterion_names rows))) duplicate_names
  raise_if (not (weights_in_range rows)) integrity
  ok (record p {
    questions = clear_orphans (criterion_names rows) p.questions;
    criteria = rows;
    version = p.version + 1;
  })

unfoldable pub generated_criterion_rows : ℕ → List GeneratedCriterion → List Criterion
generated_criterion_rows n [] = []
generated_criterion_rows n (c ∷ cs) =
    record {
      ordinal = n;
      name = strip c.name;
      description = c.description;
      weight = c.weight;
      descriptors = c.descriptors;
    }
    ∷ generated_criterion_rows (suc n) cs

-- `competency.strip() if competency else None`
unfoldable pub generated_tag : Option Text → Option Text
generated_tag none = none
generated_tag (some c) = if is_empty c then none else some (strip c)

unfoldable pub generated_question_rows : ℕ → List GeneratedQuestion → List Question
unfolding generated_tag
generated_question_rows n [] = []
generated_question_rows n (q ∷ qs) =
    record {
      ordinal = n;
      body = strip q.body;
      competency = generated_tag q.competency;
      follow_up_hints = q.follow_up_hints;
      time_budget_secs = q.time_budget_secs;
    }
    ∷ generated_question_rows (suc n) qs

unfoldable pub apply_generated : Plan → GeneratedPlan → Text → Result PlanError Plan
apply_generated p g model_name = do
  raise_if (not (is_editable p)) plan_frozen
  let cs = generated_criterion_rows 0 g.criteria
  let qs = generated_question_rows 0 g.questions
  raise_if (not (weights_in_range cs && bodies_not_blank qs)) integrity
  ok (record p {
    criteria = cs;
    questions = qs;
    generation_status = ready;
    status = draft;
    generated_by = some model_name;
    error = none;
    version = p.version + 1;
  })

unfoldable pub mark_failed : Plan → Text → Plan
mark_failed p error = record p { generation_status = failed; error = some (take 2000 error) }

-- `attach_latest_resume`, given the id of the resume that `latest_ready_resume` found, if any
unfoldable pub attach_latest_resume : Plan → Option ℕ → Plan
attach_latest_resume p none = p
attach_latest_resume p (some r) = record p { resume_id = some r }

unfoldable pub approve : Plan → Option ℕ → ℕ → Result PlanError Plan
approve p expected now = do
  guard p expected
  raise_if (not (is_ready p.generation_status)) not_generated
  raise_if (is_empty p.questions || is_empty p.criteria) incomplete
  ok (record p { status = approved; approved_at = some now; version = p.version + 1 })

unfoldable pub freeze : Plan → Result PlanError Plan
freeze p =
    if is_frozen p.status
    then ok p
    else (raise_if (is_empty p.questions || is_empty p.criteria) empty_plan
        >> ok (record p { status = frozen; version = p.version + 1 }))

unfoldable pub is_generating : GenerationStatus → Bool
is_generating generating = true
is_generating _ = false

-- `generation_in_flight`, times in seconds
unfoldable pub generation_in_flight : Plan → ℕ → Bool
unfolding is_generating
generation_in_flight p now = is_generating p.generation_status && ltb (now - p.updated_at) 300
