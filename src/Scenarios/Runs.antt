-- ===== src/Scenarios/Runs.antt =====
-- Scenarios of a scoring run.
use ai_interviewer.Base.{◌≡◌, refl, false, none, some, List, [], ◌∷◌, map, arith, Result, ok}
use ai_interviewer.Base.Rows.{find, replace}
use ai_interviewer.Base.Text.{Text, codes, strip}
use ai_interviewer.Plan.{Criterion, Plan, draft, ready}
use ai_interviewer.Transcript.{Turn, candidate, is_candidate}
use ai_interviewer.Scoring.{
  Outcome, hire, aggregate, total_weight, graded_of, band_for, clamp, graded_weight, weighted_sum,
}
use ai_interviewer.Plan.Rounding.{round_half_even, round_half_up}
use ai_interviewer.Scoring.Evidence.{
  CriterionVerdict, score_criterion, verify_evidence, verify_citation, find_turn, is_substring,
  normalise, collapse,
}
use ai_interviewer.Scoring.Run.{
  Score, score_key, score_interview, assess_rubric, has_spoken, weights_and_scores, score_all,
  begin_scoring, criterion_scores, ensure_score, mark_scoring, row_valid, store, store_outcome,
}
use ai_interviewer.Scoring.Run.Stored.{Backed, score_interview-Backed}
use ai_interviewer.Scoring.Run.Replaced.{score_interview-replaces}
use ai_interviewer.Scoring.Run.Total.{InBand, signals_of, score_interview-ok}

abbrev as_is : Text → Text
as_is s = s

abbrev depth : Criterion
depth = record {
  ordinal = 0;
  name = codes "Depth";
  description = none;
  weight = 10000;
  descriptors = [];
}

abbrev plan : Plan
plan = record {
  id = 4;
  org_id = 7;
  interview_id = 2;
  job_description_id = none;
  resume_id = none;
  status = draft;
  generation_status = ready;
  generated_by = none;
  approved_at = none;
  error = none;
  version = 1;
  updated_at = 3;
  questions = [];
  criteria = depth ∷ [];
}

abbrev turns : List Turn
turns =
    record {
      ordinal = 0;
      speaker = candidate;
      content = codes "i used a queue";
      started_offset_ms = 1000;
      ended_offset_ms = 3000;
      question_ordinal = none;
      is_final = false;
    }
    ∷ []

abbrev verdict : CriterionVerdict
verdict = record {
  score = some 400;
  rationale = none;
  evidence = record { quote = codes "used a queue"; turn_ordinal = some 0 } ∷ [];
}

abbrev reply : Criterion → Result Text CriterionVerdict
reply c = ok verdict

reply-InBand : InBand reply
reply-InBand c v n answered scored = ground arith

score_interview-ok_example :
    (o : Outcome) × ((score_interview as_is reply (codes "m") 9 2 (some plan) turns []).1
      ≡ ok (some o))
score_interview-ok_example =
    score_interview-ok as_is reply (codes "m") 9 2 plan turns [] refl
      ((omega arith, omega arith), tt) reply-InBand

abbrev all_graded : Outcome
all_graded = record {
  overall = some 400;
  recommendation = hire;
  coverage = 100;
  graded_count = 1;
  total_count = 1;
}

ran : (score_interview as_is reply (codes "m") 9 2 (some plan) turns []).1 ≡ ok (some all_graded)
unfolding score_interview assess_rubric has_spoken is_candidate strip aggregate total_weight
    weights_and_scores score_all graded_of score_criterion verify_evidence verify_citation find_turn
    is_substring normalise collapse round_half_even find replace round_half_up begin_scoring
    criterion_scores ensure_score mark_scoring row_valid store store_outcome band_for clamp
    graded_weight weighted_sum
ran = refl

score_interview-Backed_example :
    (s : Score) × (find score_key 2
        (score_interview as_is reply (codes "m") 9 2 (some plan) turns []).0
      ≡ some s)
    × Backed as_is turns all_graded s
score_interview-Backed_example =
    score_interview-Backed as_is reply (codes "m") 9 2 plan turns [] all_graded ran

abbrev measured : Score → Score
measured r = record r { other_signals = (codes "pauses", codes "2") ∷ [] }

-- the table after that run, where the delivery was measured since
abbrev scored_before : List Score
scored_before = map measured (score_interview as_is reply (codes "m") 9 2 (some plan) turns []).0

score_interview-replaces_example :
    ((score_interview as_is reply (codes "m") 9 2 (some plan) turns scored_before).1
      ≡ ok (some all_graded))
    × ((r : Score) × (find score_key 2
            (score_interview as_is reply (codes "m") 9 2 (some plan) turns []).0
          ≡ some r)
        × (r.other_signals ≡ signals_of 2 [])
        × (find score_key 2
              (score_interview as_is reply (codes "m") 9 2 (some plan) turns scored_before).0
            ≡ some (record r { other_signals = signals_of 2 scored_before })))
score_interview-replaces_example =
    score_interview-replaces as_is reply (codes "m") 9 2 plan turns [] scored_before all_graded ran
