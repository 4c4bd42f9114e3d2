-- ===== src/Plan/Grounding.antt =====
-- The generation of a plan around its validators: app/modules/question_plan/generator.py (`generate` and the
-- check that a question is about the resume) and `complete_structured` of app/integrations/nim_client.py. What
-- the model answers, and `str.lower`, are arguments.
pub mod Kept
pub mod Same
pub mod Trim
use ai_interviewer.Base.{
  ℕ, ◌+◌, ◌-◌, ◌*◌, Bool, true, false, not, ◌&&◌, ◌||◌, Option, none, some, List, [], ◌∷◌, map,
  Result, ok, err, ltb, leb, ◌==◌, if◌then◌else◌, ◌>>=◌,
}
use ai_interviewer.Base.Lists.{length, some_of, is_empty, keep, take}
use ai_interviewer.Base.Text.{Text, codes, strip, mem_text, text_eq, is_space}
use ai_interviewer.Plan.Generator.{
  GeneratedQuestion, GeneratedCriterion, GeneratedPlan, RubricError, max_criteria, validate,
}
use mathlib.Core.List.{reverse}

abbrev pub min_grounded_questions : ℕ
min_grounded_questions = 3

-- a word, of which the characters are reversed, before the others
abbrev pub flush_word : Text → List Text → List Text
flush_word [] rest = rest
flush_word (c ∷ word) rest = reverse (c ∷ word) ∷ rest

-- the longest stretches of characters that pass the test; `word` is the one that is open
unfoldable pub runs : (ℕ → Bool) → Text → Text → List Text
runs test word [] = flush_word word []
runs test word (c ∷ s) = elim (test c) [
  | true ↦ runs test (c ∷ word) s
  | false ↦ flush_word word (runs test [] s)
]

-- the class of `_WORD`: `[a-z0-9+#.]`
unfoldable pub is_word_char : ℕ → Bool
is_word_char c =
    (leb b'a' c && leb c b'z')
    || ((leb b'0' c && leb c b'9') || ((c == b'+') || ((c == b'#') || (c == b'.'))))

unfoldable pub drop_dots : Text → Text
drop_dots [] = []
drop_dots (c ∷ s) = if c == b'.' then drop_dots s else c ∷ s

-- `token.strip(".")`
unfoldable pub strip_dots : Text → Text
strip_dots s = reverse (drop_dots (reverse (drop_dots s)))

-- `_STOPWORDS`
unfoldable pub stopwords : List Text
stopwords =
    runs (λ c. not (is_space c)) []
      (codes
        "a an and the of to in on for with at by from as is was were be been using used built build developed development work worked experience project projects it its this that their they i my our we how what why when where who which whom can could would should do did does describe explain tell talk walk about make made choose chose given any them then now around including especially your you me my so if into over than while during between across")

-- `_words`
unfoldable pub words : (Text → Text) → Text → List Text
words lower text =
    keep (λ t. ltb 1 (length t) && not (mem_text t stopwords))
      (map strip_dots (runs is_word_char [] (lower text)))

-- the number of distinct words that are in the haystack
unfoldable pub distinct_hits : List Text → List Text → ℕ
distinct_hits haystack [] = 0
distinct_hits haystack (w ∷ ws) =
    (if mem_text w haystack && not (mem_text w ws) then 1 else 0) + distinct_hits haystack ws

-- `_body_ungrounded`: fewer than a quarter
unfoldable pub body_ungrounded : (Text → Text) → Text → List Text → Bool
body_ungrounded lower body haystack =
    let tokens = words lower body in
    is_empty tokens || ltb (4 * distinct_hits haystack tokens) (length tokens)

-- fewer than three fifths of the words of the quotation, or no word at all
unfoldable pub evidence_ungrounded : (Text → Text) → Text → List Text → Bool
evidence_ungrounded lower evidence haystack =
    let needle = words lower evidence in
    is_empty needle || ltb (5 * length (keep (λ w. mem_text w haystack) needle)) (3 * length needle)

unfoldable pub is_offender : (Text → Text) → List Text → GeneratedQuestion → Bool
is_offender lower haystack q =
    evidence_ungrounded lower q.resume_evidence haystack || body_ungrounded lower q.body haystack

-- `_ungrounded`
unfoldable pub ungrounded : (Text → Text) → Text → GeneratedPlan → List GeneratedQuestion
ungrounded lower resume plan =
    let haystack = words lower resume in
    if is_empty haystack then [] else keep (is_offender lower haystack) plan.questions

-- the two descriptors of a band, under `==` of dictionaries
unfoldable pub has_entry : List (Text × Text) → Text × Text → Bool
has_entry ds (k, v) = some_of (λ d. text_eq d.0 k && text_eq d.1 v) ds

unfoldable pub option_eq : Option Text → Option Text → Bool
option_eq none none = true
option_eq (some s) (some t) = text_eq s t
option_eq _ _ = false

-- `==` of two criteria as the model returned them
unfoldable pub criterion_eq : GeneratedCriterion → GeneratedCriterion → Bool
criterion_eq c d =
    text_eq c.name d.name
    && (option_eq c.description d.description
        && ((c.weight == d.weight)
            && ((length c.descriptors == length d.descriptors)
                && not (some_of (λ e. not (has_entry d.descriptors e)) c.descriptors))))

-- `sorted(criteria, key=_weight, reverse=True)`, which is stable
unfoldable pub insert_heavy : GeneratedCriterion → List GeneratedCriterion → List GeneratedCriterion
insert_heavy c [] = c ∷ []
insert_heavy c (d ∷ ds) = if leb d.weight c.weight then c ∷ d ∷ ds else d ∷ insert_heavy c ds

unfoldable pub sort_heavy : List GeneratedCriterion → List GeneratedCriterion
sort_heavy [] = []
sort_heavy (c ∷ cs) = insert_heavy c (sort_heavy cs)

abbrev pub kept_criteria : List GeneratedCriterion → List GeneratedCriterion
kept_criteria cs = take max_criteria (sort_heavy cs)

abbrev pub is_kept : List GeneratedCriterion → GeneratedCriterion → Bool
is_kept kept c = some_of (criterion_eq c) kept

-- `_trim_overlong_rubric`
unfoldable pub trim_overlong_rubric : GeneratedPlan → GeneratedPlan
trim_overlong_rubric g =
    if leb (length g.criteria) max_criteria
    then g
    else record g { criteria = keep (is_kept (kept_criteria g.criteria)) g.criteria }

-- `GeneratedPlan.model_validate`, of a reply that is JSON
unfoldable pub model_validate : ℕ → Option GeneratedPlan → Option GeneratedPlan
model_validate one none = none
model_validate one (some raw) = elim (validate one (trim_overlong_rubric raw)) [
  | ok g ↦ some g
  | err _ ↦ none
]

-- the two attempts of `complete_structured`; `none` is `NimError`
unfoldable pub complete_structured :
    ℕ → Option GeneratedPlan → Option GeneratedPlan → Option GeneratedPlan
complete_structured one reply repaired = elim (model_validate one reply) [
  | some g ↦ some g
  | none ↦ model_validate one repaired
]

-- what is done with the plan that the grounding repair returned
unfoldable pub drop_ungrounded : (Text → Text) → Text → GeneratedPlan → GeneratedPlan
drop_ungrounded lower resume plan =
    let still = ungrounded lower resume plan in
    if not (is_empty still) && leb (min_grounded_questions + length still) (length plan.questions)
    then record plan {
      questions = keep (λ q. not (is_offender lower (words lower resume) q)) plan.questions;
    }
    else plan

-- the replies of the model, of the two attempts of each of the two turns
pub record Replies : Type 0 where
  pub first : Option GeneratedPlan
  pub first_repaired : Option GeneratedPlan
  pub second : Option GeneratedPlan
  pub second_repaired : Option GeneratedPlan

unfoldable pub generate : (Text → Text) → ℕ → Text → Replies → Option GeneratedPlan
generate lower one resume replies =
    elim (complete_structured one replies.first replies.first_repaired) [
      | none ↦ none
      | some plan ↦
          if is_empty (strip resume) || is_empty (ungrounded lower resume plan)
          then some plan
          else elim (complete_structured one replies.second replies.second_repaired) [
            | none ↦ none
            | some repaired ↦ some (drop_ungrounded lower resume repaired)
          ]
    ]
