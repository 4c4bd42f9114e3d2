-- ===== src/Plan/Grounding/Kept.antt =====
-- What `generate` hands on, against the resume that it was given.
use ai_interviewer.Base.{
  ℕ, ◌+◌, ◌≤◌, ◌<◌, ◌≡◌, refl, ◌∙◌, ap, Bool, true, false, not, Option, none, some, List, [], ◌∷◌,
  arith, ok, leb, Bool-cases, Option-cases, Result-cases, inl, inr,
}
use ai_interviewer.Base.Lists.{All, length, is_empty, keep}
use ai_interviewer.Base.Text.{Text, strip}
use ai_interviewer.Plan.Generator.{
  GeneratedPlan, GeneratedQuestion, validate, fields_valid, check_rubric, is_unmatched, names,
}
use ai_interviewer.Plan.Generator.Valid.{IsValidated, check_rubric-IsValidated}
use ai_interviewer.Plan.Grounding.{
  min_grounded_questions, words, is_offender, ungrounded, trim_overlong_rubric, model_validate,
  complete_structured, drop_ungrounded, Replies, generate,
}

module _ {A : Type 0} (test : A → Bool) where
  keep-empty : (xs : List A) → is_empty (keep test xs) ≡ true → All (λ x. test x ≡ false) xs
  keep-empty [] h = tt
  keep-empty (x ∷ xs) h = elim (Bool-cases (test x)) [
    | inl e ↦ absurd (ground arith)
    | inr e ↦ (e, keep-empty xs (ground arith))
  ]

  empty-keep : (xs : List A) → All (λ x. test x ≡ false) xs → is_empty (keep test xs) ≡ true
  empty-keep [] h = refl
  empty-keep (x ∷ xs) (here, h) = rw (keep, here) (empty-keep xs h)

  length-keep :
      (xs : List A) → length (keep test xs) + length (keep (λ x. not (test x)) xs) ≡ length xs
  length-keep [] = omega arith
  length-keep (x ∷ xs) = elim (Bool-cases (test x)) [
    | inl e ↦ rw (length, keep, e) (omega (arith, length-keep xs))
    | inr e ↦ rw (length, keep, e) (omega (arith, length-keep xs))
  ]

  All-keep : (P : A → Type 0) (xs : List A) → All P xs → All P (keep test xs)
  All-keep P [] ps = tt
  All-keep P (x ∷ xs) (p, ps) = elim (Bool-cases (test x)) [
    | inl e ↦ rw (All, keep, e) (p, All-keep P xs ps)
    | inr e ↦ rw (All, keep, e) (All-keep P xs ps)
  ]

validate-IsValidated :
    (one : ℕ) (g h : GeneratedPlan) → 0 < one → validate one g ≡ ok h → IsValidated h
unfolding validate fields_valid
validate-IsValidated one g h p e =
    let few : length g.criteria ≤ 99 = ground arith in
    let checked : check_rubric one g ≡ ok h = ground arith in
    check_rubric-IsValidated one g h p few checked

model_validate-IsValidated :
    (one : ℕ) (raw : Option GeneratedPlan) (g : GeneratedPlan)
    → 0 < one
    → model_validate one raw ≡ some g
    → IsValidated g
unfolding model_validate
model_validate-IsValidated one none g p e = cc
model_validate-IsValidated one (some raw) g p e =
    elim (Result-cases (validate one (trim_overlong_rubric raw))) [
      | inl (h, done) ↦
          let same : h ≡ g = ground arith in
          validate-IsValidated one (trim_overlong_rubric raw) g p (rw (← same) done)
      | inr (x, failed) ↦ absurd (ground arith)
    ]

complete-IsValidated :
    (one : ℕ) (a b : Option GeneratedPlan) (g : GeneratedPlan)
    → 0 < one
    → complete_structured one a b ≡ some g
    → IsValidated g
unfolding complete_structured
complete-IsValidated one a b g p e = elim (Option-cases (model_validate one a)) [
  | inr (h, first) ↦
      let same : h ≡ g = ground arith in model_validate-IsValidated one a g p (first ∙ ap some same)
  | inl failed ↦ model_validate-IsValidated one b g p (ground arith)
]

-- every question is about the resume
abbrev pub AllGrounded : (Text → Text) → Text → GeneratedPlan → Type 0
AllGrounded lower resume g = All (λ q. is_offender lower (words lower resume) q ≡ false) g.questions

-- the questions of a plan that are about the resume
abbrev pub grounded_questions : (Text → Text) → Text → GeneratedPlan → List GeneratedQuestion
grounded_questions lower resume g =
    keep (λ q. not (is_offender lower (words lower resume) q)) g.questions

-- What the model's second answer, `repaired`, becomes: all of it, less the questions that are not about the
-- resume, or all of it where fewer than three are.
pub data Settled (lower : Text → Text) (resume : Text) (repaired : GeneratedPlan)
    : GeneratedPlan → Type 0 where
  whole : AllGrounded lower resume repaired → Settled lower resume repaired repaired
  thinned :
      min_grounded_questions ≤ length (grounded_questions lower resume repaired)
      → Settled lower resume repaired
          (record repaired { questions = grounded_questions lower resume repaired })
  too_few :
      length (grounded_questions lower resume repaired) < min_grounded_questions
      → Settled lower resume repaired repaired

-- Where a plan comes from: the first answer, if it is about the resume, or else the second.
pub data Origin (lower : Text → Text) (one : ℕ) (resume : Text) (replies : Replies)
    : GeneratedPlan → Type 0 where
  first_answer :
      (g : GeneratedPlan)
      → complete_structured one replies.first replies.first_repaired ≡ some g
      → AllGrounded lower resume g
      → Origin lower one resume replies g
  second_answer :
      (plan repaired g : GeneratedPlan)
      → complete_structured one replies.first replies.first_repaired ≡ some plan
      → ¬ AllGrounded lower resume plan
      → complete_structured one replies.second replies.second_repaired ≡ some repaired
      → Settled lower resume repaired g
      → Origin lower one resume replies g

none_ungrounded :
    (lower : Text → Text) (resume : Text) (g : GeneratedPlan)
    → is_empty (words lower resume) ≡ false
    → is_empty (ungrounded lower resume g) ≡ true
    → AllGrounded lower resume g
unfolding ungrounded
none_ungrounded lower resume g some_words h =
    keep-empty (is_offender lower (words lower resume)) g.questions (ground arith)

some_ungrounded :
    (lower : Text → Text) (resume : Text) (g : GeneratedPlan)
    → is_empty (words lower resume) ≡ false
    → is_empty (ungrounded lower resume g) ≡ false
    → ¬ AllGrounded lower resume g
unfolding ungrounded
some_ungrounded lower resume g some_words h all =
    let none_there = empty-keep (is_offender lower (words lower resume)) g.questions all in
    absurd (ground arith)

drop_ungrounded-Settled :
    (lower : Text → Text) (resume : Text) (g : GeneratedPlan)
    → is_empty (words lower resume) ≡ false
    → IsValidated g
    → IsValidated (drop_ungrounded lower resume g)
      × Settled lower resume g (drop_ungrounded lower resume g)
unfolding drop_ungrounded
drop_ungrounded-Settled lower resume g some_words v =
    let offends = is_offender lower (words lower resume) in
    let same : ungrounded lower resume g ≡ keep offends g.questions =
      unfold ungrounded in rw some_words refl in
    let counted = length-keep offends g.questions in
    let long = ap length same in
    elim (Bool-cases (is_empty (ungrounded lower resume g))) [
      | inl all_about ↦
          rw all_about (v, whole (none_ungrounded lower resume g some_words all_about))
      | inr some_not ↦
          elim (Bool-cases (
            leb (min_grounded_questions + length (ungrounded lower resume g))
              (length g.questions))) [
                | inl enough ↦
                    let three : min_grounded_questions
                        ≤ length (grounded_questions lower resume g) =
                      ground (arith, counted, long) in
                    rw (some_not, enough)
                      (
                        record {
                          whole = v.whole;
                          distinct = v.distinct;
                          matched =
                              All-keep (λ q. not (offends q))
                                (λ q. is_unmatched (names g.criteria) q.competency ≡ false)
                                g.questions v.matched;
                        },
                        thinned three,
                      )
                | inr few ↦ rw (some_not, few) (v, too_few (ground (arith, counted, long)))
              ]
    ]

-- With a resume that has words, a plan that is generated has a rubric that sums to exactly 1.0, with distinct
-- names and no question that names a criterion which is not there. It is the model's first answer, if every
-- question of that is about the resume, by its quotation and by its words; else it is made of the second answer:
-- that itself if all its questions are about the resume, or fewer than three are, and otherwise the second
-- answer with just the questions that are.
pub generate-Origin :
    (lower : Text → Text) (one : ℕ) (resume : Text) (replies : Replies) (g : GeneratedPlan)
    → 0 < one
    → is_empty (strip resume) ≡ false
    → is_empty (words lower resume) ≡ false
    → generate lower one resume replies ≡ some g
    → IsValidated g × Origin lower one resume replies g
unfolding generate
generate-Origin lower one resume replies g p there some_words e =
    elim (Option-cases (complete_structured one replies.first replies.first_repaired)) [
      | inl failed ↦ absurd (ground arith)
      | inr (plan, first) ↦ elim (Bool-cases (is_empty (ungrounded lower resume plan))) [
        | inl all_about ↦
            let same : plan ≡ g = ground arith in
            (
              complete-IsValidated one replies.first replies.first_repaired g p
                  (first ∙ ap some same),
              first_answer g (first ∙ ap some same)
                  (none_ungrounded lower resume g some_words (rw (← same) all_about)),
            )
        | inr some_not ↦
            elim (Option-cases (complete_structured one replies.second replies.second_repaired)) [
              | inl failed ↦ absurd (ground arith)
              | inr (repaired, second) ↦
                  let same : drop_ungrounded lower resume repaired ≡ g = ground arith in
                  let (valid, settled) = drop_ungrounded-Settled lower resume repaired some_words (
                    complete-IsValidated one replies.second replies.second_repaired repaired p
                      second) in
                  rw (← same) (
                    valid,
                    second_answer plan repaired _ first
                        (some_ungrounded lower resume plan some_words some_not) second settled,
                  )
            ]
      ]
    ]
