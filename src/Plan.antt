-- ===== src/Plan.antt =====
-- The question plan of an interview: the tables of app/models/question_plan.py and the edits of
-- app/modules/question_plan/service.py. A weight is a number of ten-thousandths, the precision of
-- its column, so a rubric whose weights sum to 1.0 sums to 10000 here.
pub mod Rounding
pub mod Generator
pub mod Grounding
pub mod Edits
pub mod Sound
pub mod Frozen
use ai_interviewer.Base.{ℕ, Bool, true, false, not, Option, List}
use ai_interviewer.Base.Text.{Text}

pub data PlanStatus : Type 0 where
  draft approved frozen : PlanStatus

pub data GenerationStatus : Type 0 where
  pending generating ready failed : GenerationStatus

pub record Question : Type 0 where
  pub ordinal : ℕ
  pub body : Text
  pub competency : Option Text
  pub follow_up_hints : List Text
  pub time_budget_secs : ℕ

pub record Criterion : Type 0 where
  pub ordinal : ℕ
  pub name : Text
  pub description : Option Text
  pub weight : ℕ
  pub descriptors : List (Text × Text)

pub record Plan : Type 0 where
  pub id : ℕ
  pub org_id : ℕ
  pub interview_id : ℕ
  pub job_description_id : Option ℕ
  pub resume_id : Option ℕ
  pub status : PlanStatus
  pub generation_status : GenerationStatus
  pub generated_by : Option Text
  pub approved_at : Option ℕ
  pub error : Option Text
  pub version : ℕ
  pub updated_at : ℕ
  pub questions : List Question
  pub criteria : List Criterion

-- `plan.status is PlanStatus.FROZEN`
unfoldable pub is_frozen : PlanStatus → Bool
is_frozen draft = false
is_frozen approved = false
is_frozen frozen = true

-- the property `is_editable`
unfoldable pub is_editable : Plan → Bool
unfolding is_frozen
is_editable p = not (is_frozen p.status)

-- `generation_status is PlanGenerationStatus.READY`
unfoldable pub is_ready : GenerationStatus → Bool
is_ready pending = false
is_ready generating = false
is_ready ready = true
is_ready failed = false
