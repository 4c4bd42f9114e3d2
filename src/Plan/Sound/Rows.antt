-- ===== src/Plan/Sound/Rows.antt =====
-- The rows that the edits write, their numbers and their tags.
use ai_interviewer.Base.{ℕ, suc, ◌≡◌, refl, false, List, [], ◌∷◌, arith, ok}
use ai_interviewer.Base.Lists.{All, sum}
use ai_interviewer.Base.Text.{Text}
use ai_interviewer.Plan.{Question}
use ai_interviewer.Plan.Generator.{
  GeneratedCriterion, GeneratedQuestion, names, weight_sum, is_unmatched,
}
use ai_interviewer.Plan.Edits.{
  QuestionWrite, CriterionWrite, criterion_names, weights, check_tags, question_rows,
  criterion_rows, is_orphan, clear_orphans, generated_criterion_rows, generated_question_rows,
}
use ai_interviewer.Plan.Sound.{Numbered, question_ordinals, criterion_ordinals, AllTagged}

pub question_rows-Numbered :
    (n : ℕ) (qs : List QuestionWrite) → Numbered n (question_ordinals (question_rows n qs))
unfolding question_rows
question_rows-Numbered n [] = tt
question_rows-Numbered n (q ∷ qs) = (refl, question_rows-Numbered (suc n) qs)

pub criterion_rows-Numbered :
    (n : ℕ) (cs : List CriterionWrite) → Numbered n (criterion_ordinals (criterion_rows n cs))
unfolding criterion_rows
criterion_rows-Numbered n [] = tt
criterion_rows-Numbered n (c ∷ cs) = (refl, criterion_rows-Numbered (suc n) cs)

pub generated_question_rows-Numbered :
    (n : ℕ) (qs : List GeneratedQuestion)
    → Numbered n (question_ordinals (generated_question_rows n qs))
unfolding generated_question_rows
generated_question_rows-Numbered n [] = tt
generated_question_rows-Numbered n (q ∷ qs) = (refl, generated_question_rows-Numbered (suc n) qs)

pub generated_criterion_rows-Numbered :
    (n : ℕ) (cs : List GeneratedCriterion)
    → Numbered n (criterion_ordinals (generated_criterion_rows n cs))
unfolding generated_criterion_rows
generated_criterion_rows-Numbered n [] = tt
generated_criterion_rows-Numbered n (c ∷ cs) = (refl, generated_criterion_rows-Numbered (suc n) cs)

pub generated_criterion_rows-names :
    (n : ℕ) (cs : List GeneratedCriterion)
    → criterion_names (generated_criterion_rows n cs) ≡ names cs
unfolding generated_criterion_rows
generated_criterion_rows-names n [] = refl
generated_criterion_rows-names n (c ∷ cs) = cc (generated_criterion_rows-names (suc n) cs)

pub generated_criterion_rows-weights :
    (n : ℕ) (cs : List GeneratedCriterion)
    → sum (weights (generated_criterion_rows n cs)) ≡ weight_sum cs
unfolding generated_criterion_rows
generated_criterion_rows-weights n [] = refl
generated_criterion_rows-weights n (c ∷ cs) =
    omega (arith, generated_criterion_rows-weights (suc n) cs)

pub question_rows-AllTagged :
    (ns : List Text) (n : ℕ) (qs : List QuestionWrite)
    → check_tags ns qs ≡ ok tt
    → AllTagged ns (question_rows n qs)
unfolding check_tags question_rows is_orphan
question_rows-AllTagged ns n [] h = tt
question_rows-AllTagged ns n (q ∷ qs) h =
    (ground arith, question_rows-AllTagged ns (suc n) qs (ground arith))

pub generated_question_rows-AllTagged :
    (ns : List Text) (n : ℕ) (qs : List GeneratedQuestion)
    → All (λ q. is_unmatched ns q.competency ≡ false) qs
    → AllTagged ns (generated_question_rows n qs)
unfolding is_unmatched generated_question_rows is_orphan
generated_question_rows-AllTagged ns n [] h = tt
generated_question_rows-AllTagged ns n (q ∷ qs) h =
    (ground arith, generated_question_rows-AllTagged ns (suc n) qs h.1)

pub clear_orphans-AllTagged :
    (ns : List Text) (qs : List Question) → AllTagged ns (clear_orphans ns qs)
unfolding clear_orphans
clear_orphans-AllTagged ns [] = tt
clear_orphans-AllTagged ns (q ∷ qs) = (ground arith, clear_orphans-AllTagged ns qs)

pub clear_orphans-ordinals :
    (ns : List Text) (qs : List Question)
    → question_ordinals (clear_orphans ns qs) ≡ question_ordinals qs
unfolding clear_orphans
clear_orphans-ordinals ns [] = refl
clear_orphans-ordinals ns (q ∷ qs) = ground (arith, clear_orphans-ordinals ns qs)
