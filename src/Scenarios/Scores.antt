-- ===== src/Scenarios/Scores.antt =====
-- Scenarios of scoring, and of the transcript that it reads.
use mathlib.Core.Logic.{◌↔◌}
use ai_interviewer.Plan.Rounding.{round_half_even, round_half_up}
use ai_interviewer.Base.{
  ℕ, ◌<◌, ◌≡◌, refl, ◌⊎◌, Bool, true, false, none, some, List, [], ◌∷◌, arith, Result, ok, err, leb,
}
use ai_interviewer.Base.Lists.{All, is_empty}
use ai_interviewer.Base.Rows.{find}
use ai_interviewer.Base.Text.{Text, codes, strip}
use ai_interviewer.Scoring.{
  graded_weight, graded_of, Outcome, Weighted, hire, aggregate, band_for, graded_weight, clamp,
  total_weight, graded_of, weighted_sum,
}
use ai_interviewer.Scoring.Graded.{graded_only, ungraded_costs_nothing}
use ai_interviewer.Scoring.Evidence.{
  Citation, CriterionVerdict, verify_evidence, score_criterion, collapse, verify_citation,
  is_substring, normalise, find_turn,
}
use ai_interviewer.Scoring.Evidence.Quotes.{Said, score_criterion-supported}
use ai_interviewer.Transcript.{
  Turn, turn_key, TurnCompleted, Word, candidate, interviewer, offsets_ordered, record_turn, apply,
  is_candidate,
}
use ai_interviewer.Transcript.Turns.{Refused, record_turn-raises}
use ai_interviewer.Transcript.Correct.{AllCorrected, Skipped, apply-AllCorrected}

-- two criteria graded 4.00 and 3.00, and one that was not reached
abbrev rubric : List Weighted
rubric = (4000, some 400) ∷ (2000, some 300) ∷ (4000, none) ∷ []

abbrev scored : Outcome
scored = record {
  overall = some 367;
  recommendation = hire;
  coverage = 60;
  graded_count = 2;
  total_count = 3;
}

aggregated : aggregate rubric true ≡ ok scored
unfolding aggregate total_weight graded_of round_half_even graded_weight clamp band_for
    round_half_up weighted_sum
aggregated = refl

weighs : 0 < graded_weight (graded_of rubric)
unfolding graded_weight graded_of
weighs = omega arith

abbrev alone : Outcome
alone = record scored { coverage = 100; total_count = 2 }

aggregated_alone : aggregate (graded_only rubric) true ≡ ok alone
unfolding aggregate total_weight graded_of round_half_even graded_weight clamp band_for
    round_half_up weighted_sum
aggregated_alone = refl

ungraded_costs_nothing_example : scored.overall ≡ alone.overall
ungraded_costs_nothing_example =
    ungraded_costs_nothing rubric scored alone weighs aggregated aggregated_alone

abbrev as_is : Text → Text
as_is s = s

abbrev letter : ℕ → Bool
letter c = leb 65 c

abbrev answer : Turn
answer = record {
  ordinal = 1;
  speaker = candidate;
  content = codes "i used a queue";
  started_offset_ms = 1000;
  ended_offset_ms = 3000;
  question_ordinal = none;
  is_final = false;
}

abbrev prompt : Turn
prompt = record answer {
  ordinal = 0;
  speaker = interviewer;
  content = codes "how?";
  started_offset_ms = 0;
  ended_offset_ms = 900;
}

abbrev turns : List Turn
turns = prompt ∷ answer ∷ []

abbrev cited : Citation
cited = record { quote = codes " used a queue"; turn_ordinal = some 9 }

abbrev verdict : CriterionVerdict
verdict = record { score = some 400; rationale = none; evidence = cited ∷ [] }

abbrev reply : Result Text CriterionVerdict
reply = ok verdict

graded : (score_criterion as_is (ok verdict) turns).score ≡ some 400
unfolding score_criterion verify_evidence verify_citation strip find_turn is_candidate is_substring
    normalise collapse
graded = refl

score_criterion-supported_example :
    (is_empty (score_criterion as_is (ok verdict) turns).evidence ≡ false)
    × All (Said as_is turns) (score_criterion as_is (ok verdict) turns).evidence
    × ((v : CriterionVerdict) × (reply ≡ ok v) × (v.score ≡ some 400))
score_criterion-supported_example = score_criterion-supported as_is (ok verdict) turns 400 graded

abbrev event : TurnCompleted
event = record {
  ordinal = 2;
  speaker = codes "CANDIDATE";
  content = codes "and a lock";
  started_offset_ms = 3100;
  ended_offset_ms = 4000;
  question_ordinal = none;
}

record_turn-raises_example :
    (record_turn as_is event turns ≡ err offsets_ordered)
    ↔ ((t : Turn) × (find turn_key 2 turns ≡ some t) × Refused event t)
record_turn-raises_example = record_turn-raises as_is event turns (omega arith, (omega arith, tt))

abbrev heard : Text → List Word
heard key =
    record { text = codes "I"; start_ms = 1000; end_ms = 1200 }
    ∷ record { text = codes "used"; start_ms = 1200; end_ms = 1600 }
    ∷ record { text = codes "acute"; start_ms = 1700; end_ms = 2400 }
    ∷ []

apply-AllCorrected_example :
    (Skipped heard (some (codes "key")) turns
      × ((apply letter heard (some (codes "key")) turns).0 ≡ turns))
    ⊎ ((k : Text) × (some (codes "key") ≡ some k)
        × AllCorrected letter (heard k) turns (apply letter heard (some (codes "key")) turns).0)
apply-AllCorrected_example =
    apply-AllCorrected letter heard (some (codes "key")) turns
      ((λ e. absurd (omega arith), tt), (tt, tt))
