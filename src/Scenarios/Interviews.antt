-- ===== src/Scenarios/Interviews.antt =====
-- Scenarios of an interview's life.
use ai_interviewer.Base.{◌≡◌, refl, ◌⊎◌, none, some, List, [], ◌∷◌}
use ai_interviewer.Base.Text.{codes}
use ai_interviewer.Interview.{Interview, invited, in_progress}
use ai_interviewer.Interview.Store.{Store}
use ai_interviewer.Interview.Rows.{Follows, row}
use ai_interviewer.Interview.Once.{
  Event, session_ended, deliver, count, IsEnded, sent_at_most_once, ended_for_good,
}
use ai_interviewer.Plan.{Plan, approved, ready, Question, Criterion}

abbrev live_row : Interview
live_row = record {
  id = 1;
  org_id = 7;
  candidate_id = 3;
  job_id = none;
  status = in_progress;
  created_at = 0;
  scheduled_at = none;
  started_at = some 5;
  completed_at = none;
  recording_key = none;
}

abbrev invited_row : Interview
invited_row = record live_row { id = 2; status = invited; started_at = none }

abbrev question : Question
question = record {
  ordinal = 0;
  body = codes "Why this job?";
  competency = none;
  follow_up_hints = [];
  time_budget_secs = 180;
}

abbrev criterion : Criterion
criterion = record {
  ordinal = 0;
  name = codes "Depth";
  description = none;
  weight = 10000;
  descriptors = [];
}

abbrev plan : Plan
plan = record {
  id = 4;
  org_id = 7;
  interview_id = 2;
  job_description_id = none;
  resume_id = none;
  status = approved;
  generation_status = ready;
  generated_by = none;
  approved_at = some 3;
  error = none;
  version = 1;
  updated_at = 3;
  questions = question ∷ [];
  criteria = criterion ∷ [];
}

abbrev store : Store
store = record { interviews = live_row ∷ invited_row ∷ []; plans = plan ∷ []; sent = [] }

abbrev ended_twice : List Event
ended_twice =
    session_ended 9 1 (codes "completed") [] ∷ session_ended 10 1 (codes "abandoned") [] ∷ []

sent_at_most_once_example :
    (count 1 (deliver ended_twice store).sent ≡ 0)
    ⊎ ((count 1 (deliver ended_twice store).sent ≡ 1) × IsEnded (row 1 (deliver ended_twice store)))
sent_at_most_once_example = sent_at_most_once 1 ended_twice store refl

ended_for_good_example : Follows (row 1 store) (row 1 (deliver ended_twice store))
ended_for_good_example = ended_for_good 1 ended_twice store
