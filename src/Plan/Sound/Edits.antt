-- ===== src/Plan/Sound/Edits.antt =====
-- The invariant of a plan through each edit of app/modules/question_plan/service.py.
use ai_interviewer.Base.{
  ℕ, ◌+◌, ◌≡◌, refl, ◌∙◌, inl, inr, false, Option, none, some, List, ok, arith, Result-cases,
}
use ai_interviewer.Base.Lists.{is_empty}
use ai_interviewer.Base.Text.{Text}
use ai_interviewer.Plan.{Plan, frozen, is_frozen, is_editable}
use ai_interviewer.Plan.Generator.{GeneratedPlan, names}
use ai_interviewer.Plan.Generator.Valid.{IsValidated}
use ai_interviewer.Plan.Edits.{
  QuestionWrite, CriterionWrite, criterion_names, check_tags, question_rows, criterion_rows,
  clear_orphans, generated_criterion_rows, generated_question_rows, guard, replace_questions,
  replace_criteria, apply_generated, mark_failed, attach_latest_resume, approve, freeze,
}
use ai_interviewer.Plan.Sound.{IsSound}
use ai_interviewer.Plan.Sound.Rows.{
  question_rows-Numbered, criterion_rows-Numbered, generated_question_rows-Numbered,
  generated_criterion_rows-Numbered, generated_criterion_rows-names,
  generated_criterion_rows-weights, question_rows-AllTagged, generated_question_rows-AllTagged,
  clear_orphans-AllTagged, clear_orphans-ordinals,
}

pub replace_questions-IsSound :
    (p q : Plan) (qs : List QuestionWrite) (v : Option ℕ)
    → IsSound p
    → replace_questions p qs v ≡ ok q
    → IsSound q
unfolding replace_questions guard is_editable is_frozen
replace_questions-IsSound p q qs v s e =
    elim (Result-cases (check_tags (criterion_names p.criteria) qs)) [
      | inr (x, bad) ↦ ground arith
      | inl (u, good) ↦
          let eq : q ≡ record p { questions = question_rows 0 qs; version = p.version + 1 } =
            ground arith in
          rw eq (record {
            whole = s.whole;
            distinct = s.distinct;
            tagged = question_rows-AllTagged (criterion_names p.criteria) 0 qs good;
            questions_numbered = question_rows-Numbered 0 qs;
            criteria_numbered = s.criteria_numbered;
            filled = λ f. ground arith;
          })
    ]

pub replace_criteria-IsSound :
    (p q : Plan) (cs : List CriterionWrite) (v : Option ℕ)
    → IsSound p
    → replace_criteria p cs v ≡ ok q
    → IsSound q
unfolding replace_criteria guard is_editable is_frozen
replace_criteria-IsSound p q cs v s e =
    let rows = criterion_rows 0 cs in
    let ns = criterion_names rows in
    let eq : q ≡ record p {
      questions = clear_orphans ns p.questions;
      criteria = rows;
      version = p.version + 1;
    } =
      ground arith in
    rw eq (record {
      whole = inr (ground arith);
      distinct = ground arith;
      tagged = clear_orphans-AllTagged ns p.questions;
      questions_numbered = rw (clear_orphans-ordinals ns p.questions) s.questions_numbered;
      criteria_numbered = criterion_rows-Numbered 0 cs;
      filled = λ f. ground arith;
    })

pub apply_generated-IsSound :
    (p q : Plan) (g : GeneratedPlan) (model_name : Text)
    → IsValidated g
    → apply_generated p g model_name ≡ ok q
    → IsSound q
unfolding apply_generated is_editable is_frozen
apply_generated-IsSound p q g model_name v e =
    let cs = generated_criterion_rows 0 g.criteria in
    let same = generated_criterion_rows-names 0 g.criteria in
    let criteria_eq : q.criteria ≡ cs = ground arith in
    let questions_eq : q.questions ≡ generated_question_rows 0 g.questions = ground arith in
    record {
      whole = inr (rw criteria_eq (generated_criterion_rows-weights 0 g.criteria ∙ v.whole));
      distinct = rw (criteria_eq, same) v.distinct;
      tagged =
          rw (criteria_eq, questions_eq, same)
            (generated_question_rows-AllTagged (names g.criteria) 0 g.questions v.matched);
      questions_numbered = rw questions_eq (generated_question_rows-Numbered 0 g.questions);
      criteria_numbered = rw criteria_eq (generated_criterion_rows-Numbered 0 g.criteria);
      filled = λ f. ground arith;
    }

-- An edit that changes neither the questions nor the criteria keeps a plan sound, if it freezes
-- only what is filled.
same_contents-IsSound :
    (p q : Plan)
    → IsSound p
    → q.questions ≡ p.questions
    → q.criteria ≡ p.criteria
    → (q.status ≡ frozen → (is_empty p.questions ≡ false) × (is_empty p.criteria ≡ false))
    → IsSound q
same_contents-IsSound p q s qe ce filled = record {
  whole = rw ce s.whole;
  distinct = rw ce s.distinct;
  tagged = rw (ce, qe) s.tagged;
  questions_numbered = rw qe s.questions_numbered;
  criteria_numbered = rw ce s.criteria_numbered;
  filled = λ f. rw (ce, qe) (filled f);
}

pub approve-IsSound :
    (p q : Plan) (v : Option ℕ) (now : ℕ) → IsSound p → approve p v now ≡ ok q → IsSound q
unfolding approve guard is_editable is_frozen
approve-IsSound p q v now s e =
    same_contents-IsSound p q s (ground arith) (ground arith) (λ f. ground arith)

pub freeze-IsSound : (p q : Plan) → IsSound p → freeze p ≡ ok q → IsSound q
unfolding freeze is_frozen
freeze-IsSound p q s e =
    same_contents-IsSound p q s (ground arith) (ground arith) (λ f. ground (arith, s.filled))

pub mark_failed-IsSound : (p : Plan) (error : Text) → IsSound p → IsSound (mark_failed p error)
unfolding mark_failed
mark_failed-IsSound p error s = same_contents-IsSound p (mark_failed p error) s refl refl s.filled

pub attach_latest_resume-IsSound :
    (p : Plan) (r : Option ℕ) → IsSound p → IsSound (attach_latest_resume p r)
unfolding attach_latest_resume
attach_latest_resume-IsSound p none s = s
attach_latest_resume-IsSound p (some r) s =
    same_contents-IsSound p (attach_latest_resume p (some r)) s refl refl s.filled
