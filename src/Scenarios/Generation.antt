-- ===== src/Scenarios/Generation.antt =====
-- Scenarios of the generation of a plan.
use ai_interviewer.Base.{◌≡◌, refl, false, none, some, List, [], ◌∷◌, arith}
use ai_interviewer.Base.Lists.{is_empty}
use ai_interviewer.Base.Text.{Text, codes, strip, mem_text, is_space, text_eq, all_distinct, lstrip}
use ai_interviewer.Plan.Generator.{
  GeneratedQuestion, GeneratedCriterion, GeneratedPlan, validate, fields_valid, check_rubric,
  normalise_weights, criterion_valid, drop_unmatched, has_required_bands, heaviest, is_unmatched,
  quantize, question_valid, reweigh_first, settle_drift, has_band,
}
use ai_interviewer.Plan.Generator.Valid.{IsValidated}
use ai_interviewer.Plan.Grounding.{
  words, Replies, generate, trim_overlong_rubric, is_word_char, stopwords, drop_dots, strip_dots,
  runs, complete_structured, model_validate, ungrounded, body_ungrounded, distinct_hits,
  evidence_ungrounded, is_offender,
}
use ai_interviewer.Plan.Grounding.Kept.{Origin, generate-Origin}
use ai_interviewer.Plan.Rounding.{round_half_even}

abbrev as_is : Text → Text
as_is s = s

abbrev resume : Text
resume = codes "ran kafka pipelines"

abbrev about_it : GeneratedQuestion
about_it = record {
  body = codes "why those kafka pipelines?";
  resume_evidence = codes "kafka pipelines";
  competency = none;
  follow_up_hints = [];
  time_budget_secs = 180;
}

abbrev bands : List (Text × Text)
bands = (codes "1", codes "no") ∷ (codes "3", codes "some") ∷ (codes "5", codes "all") ∷ []

abbrev depth : GeneratedCriterion
depth = record { name = codes "Depth"; description = none; weight = 1; descriptors = bands }

abbrev breadth : GeneratedCriterion
breadth = record depth { name = codes "Breadth" }

abbrev style : GeneratedCriterion
style = record depth { name = codes "Style" }

abbrev answer : GeneratedPlan
answer = record { questions = about_it ∷ []; criteria = depth ∷ breadth ∷ style ∷ [] }

abbrev replies : Replies
replies = record {
  first = none;
  first_repaired = some answer;
  second = none;
  second_repaired = none;
}

abbrev settled : GeneratedPlan
settled = record {
  questions = about_it ∷ [];
  criteria =
      record depth { weight = 3334 }
      ∷ record breadth { weight = 3333 }
      ∷ record style { weight = 3333 }
      ∷ [];
}

there : is_empty (strip resume) ≡ false
unfolding strip
there = refl

some_words : is_empty (words as_is resume) ≡ false
unfolding words runs is_word_char strip_dots drop_dots mem_text stopwords is_space text_eq
some_words = refl

generated : generate as_is 3 resume replies ≡ some settled
unfolding generate complete_structured model_validate trim_overlong_rubric ungrounded words runs
    is_word_char strip_dots drop_dots stopwords body_ungrounded distinct_hits evidence_ungrounded
    is_offender validate fields_valid check_rubric normalise_weights criterion_valid drop_unmatched
    has_required_bands heaviest is_unmatched quantize question_valid reweigh_first settle_drift
    has_band strip text_eq all_distinct mem_text is_space lstrip round_half_even
generated = refl

generate-Origin_example : IsValidated settled × Origin as_is 3 resume replies settled
generate-Origin_example =
    generate-Origin as_is 3 resume replies settled (omega arith) there some_words generated
