-- ===== src/Scenarios/Plans.antt =====
-- Scenarios of a question plan.
use ai_interviewer.Plan.Rounding.{round_half_even}
use ai_interviewer.Base.{◌≡◌, refl, inr, none, List, [], ◌∷◌, ok, arith}
use ai_interviewer.Base.Text.{codes, all_distinct, mem_text}
use ai_interviewer.Plan.{Question, Criterion, Plan, draft, frozen, ready}
use ai_interviewer.Plan.Generator.{
  GeneratedCriterion, normalise_weights, quantize, settle_drift, heaviest, reweigh_first,
}
use ai_interviewer.Plan.Generator.Shares.{Near, normalise_weights-Near}
use ai_interviewer.Plan.Edits.{is_orphan}
use ai_interviewer.Plan.Sound.{IsSound}
use ai_interviewer.Plan.Frozen.{
  Edit, fail, lock, sign_off, run_edits, SameRecord, frozen_is_permanent, run_edits-IsSound,
}

abbrev question : Question
question = record {
  ordinal = 0;
  body = codes "Why this job?";
  competency = none;
  follow_up_hints = [];
  time_budget_secs = 180;
}

abbrev criterion : Criterion
criterion = record {
  ordinal = 0;
  name = codes "Depth";
  description = none;
  weight = 10000;
  descriptors = [];
}

abbrev plan : Plan
plan = record {
  id = 4;
  org_id = 7;
  interview_id = 2;
  job_description_id = none;
  resume_id = none;
  status = draft;
  generation_status = ready;
  generated_by = none;
  approved_at = none;
  error = none;
  version = 1;
  updated_at = 3;
  questions = question ∷ [];
  criteria = criterion ∷ [];
}

abbrev frozen_plan : Plan
frozen_plan = record plan { status = frozen }

abbrev edits : List Edit
edits = sign_off none 5 ∷ fail (codes "down") ∷ lock ∷ []

frozen_is_permanent_example : SameRecord frozen_plan (run_edits edits frozen_plan)
frozen_is_permanent_example = frozen_is_permanent edits frozen_plan refl

plan-IsSound : IsSound plan
unfolding all_distinct mem_text is_orphan
plan-IsSound = record {
  whole = inr refl;
  distinct = refl;
  tagged = (refl, tt);
  questions_numbered = (refl, tt);
  criteria_numbered = (refl, tt);
  filled = λ e. (refl, refl);
}

run_edits-IsSound_example : IsSound (run_edits edits plan)
run_edits-IsSound_example = run_edits-IsSound edits plan tt plan-IsSound

abbrev third : GeneratedCriterion
third = record { name = codes "Depth"; description = none; weight = 1; descriptors = [] }

-- three criteria of a third each
abbrev thirds : List GeneratedCriterion
thirds =
    third ∷ record third { name = codes "Breadth" } ∷ record third { name = codes "Style" } ∷ []

abbrev settled_thirds : List GeneratedCriterion
settled_thirds =
    record third { weight = 3334 }
    ∷ record third { name = codes "Breadth"; weight = 3333 }
    ∷ record third { name = codes "Style"; weight = 3333 }
    ∷ []

normalised : normalise_weights 3 thirds ≡ ok settled_thirds
unfolding normalise_weights settle_drift quantize round_half_even reweigh_first heaviest
normalised = refl

normalise_weights-Near_example : Near 4 3 thirds settled_thirds
normalise_weights-Near_example =
    normalise_weights-Near 3 thirds settled_thirds (omega arith) (omega arith) normalised
