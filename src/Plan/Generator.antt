-- ===== src/Plan/Generator.antt =====
-- What a generated plan is checked for before it is stored: app/modules/question_plan/generator.py,
-- the validators of `GeneratedPlan`. The weights of a plan that comes in are numbers of parts of 1.0,
-- `one` of them to the whole; those of a plan that goes out are ten-thousandths.
pub mod Weights
pub mod Shares
pub mod Valid
use ai_interviewer.Base.{
  ℕ, suc, ◌+◌, ◌-◌, ◌*◌, Bool, true, false, not, ◌&&◌, ◌||◌, Option, none, some, List, [], ◌∷◌, map,
  Result, ok, err, raise_if, ◌>>◌, ◌>>=◌, ltb, leb, ◌==◌, if◌then◌else◌,
}
use ai_interviewer.Base.Lists.{length, some_of, is_empty}
use ai_interviewer.Base.Text.{Text, codes, strip, mem_text, all_distinct, text_eq}
use ai_interviewer.Plan.Rounding.{round_half_even}

pub record GeneratedQuestion : Type 0 where
  pub body : Text
  pub resume_evidence : Text
  pub competency : Option Text
  pub follow_up_hints : List Text
  pub time_budget_secs : ℕ

pub record GeneratedCriterion : Type 0 where
  pub name : Text
  pub description : Option Text
  pub weight : ℕ
  pub descriptors : List (Text × Text)

pub record GeneratedPlan : Type 0 where
  pub questions : List GeneratedQuestion
  pub criteria : List GeneratedCriterion

pub data RubricError : Type 0 where
  bad_field duplicate_names : RubricError
  bad_total : ℕ → RubricError

abbrev pub min_criteria : ℕ
min_criteria = 3

abbrev pub max_criteria : ℕ
max_criteria = 6

abbrev pub weight_sum : List GeneratedCriterion → ℕ
weight_sum [] = 0
weight_sum (c ∷ cs) = c.weight + weight_sum cs

abbrev pub names : List GeneratedCriterion → List Text
names [] = []
names (c ∷ cs) = strip c.name ∷ names cs

-- `v.get(band, "").strip()` is not empty
unfoldable pub has_band : Text → List (Text × Text) → Bool
has_band band [] = false
has_band band ((k, v) ∷ ds) = if text_eq k band then not (is_empty (strip v)) else has_band band ds

-- `_has_required_bands`
unfoldable pub has_required_bands : List (Text × Text) → Bool
unfolding has_band
has_required_bands ds =
    has_band (codes "1") ds && has_band (codes "3") ds && has_band (codes "5") ds

within : ℕ → ℕ → ℕ → Bool
within lo hi n = leb lo n && leb n hi

-- the bounds that the fields declare, and the bands
unfoldable pub criterion_valid : ℕ → GeneratedCriterion → Bool
unfolding within has_required_bands
criterion_valid one c =
    within 2 120 (length c.name)
    && ltb 0 c.weight
    && leb c.weight one
    && has_required_bands c.descriptors

unfoldable pub question_valid : GeneratedQuestion → Bool
unfolding within
question_valid q =
    within 10 2000 (length q.body)
    && leb (length q.resume_evidence) 1000
    && leb (length q.follow_up_hints) 6
    && within 30 1800 q.time_budget_secs

unfoldable pub fields_valid : ℕ → GeneratedPlan → Bool
unfolding within criterion_valid question_valid
fields_valid one g =
    within 1 40 (length g.questions)
    && within min_criteria max_criteria (length g.criteria)
    && not (some_of (λ c. not (criterion_valid one c)) g.criteria)
    && not (some_of (λ q. not (question_valid q)) g.questions)

-- `(c.weight / total).quantize(quantum)` for each criterion
unfoldable pub quantize : ℕ → List GeneratedCriterion → List GeneratedCriterion
quantize total [] = []
quantize total (c ∷ cs) =
    record c { weight = round_half_even (c.weight * 10000) total } ∷ quantize total cs

unfoldable pub heaviest : List GeneratedCriterion → ℕ
heaviest [] = 0
heaviest (c ∷ cs) = let h = heaviest cs in if ltb c.weight h then h else c.weight

-- the first criterion of weight `m` gets the weight `v`
unfoldable pub reweigh_first : ℕ → ℕ → List GeneratedCriterion → List GeneratedCriterion
reweigh_first m v [] = []
reweigh_first m v (c ∷ cs) =
    if c.weight == m then record c { weight = v } ∷ cs else c ∷ reweigh_first m v cs

-- `max(criteria, key=weight).weight += drift`: `max` returns the first of the heaviest. The new
-- weight is written as one difference, so that a negative drift is exact.
unfoldable pub settle_drift : List GeneratedCriterion → List GeneratedCriterion
settle_drift cs =
    if weight_sum cs == 10000
    then cs
    else reweigh_first (heaviest cs) (heaviest cs + 10000 - weight_sum cs) cs

-- `_normalise_weights`
unfoldable pub normalise_weights :
    ℕ → List GeneratedCriterion → Result RubricError (List GeneratedCriterion)
normalise_weights one cs =
    let total = weight_sum cs in
    if leb one (2 * total) && leb (2 * total) (3 * one)
    then ok (settle_drift (quantize total cs))
    else err (bad_total total)

-- `question.competency and question.competency.strip() not in names`
unfoldable pub is_unmatched : List Text → Option Text → Bool
is_unmatched ns none = false
is_unmatched ns (some c) = not (is_empty c) && not (mem_text (strip c) ns)

-- `_drop_unmatched_competencies`
unfoldable pub drop_unmatched : List Text → List GeneratedQuestion → List GeneratedQuestion
unfolding is_unmatched
drop_unmatched ns [] = []
drop_unmatched ns (q ∷ qs) =
    (if is_unmatched ns q.competency then record q { competency = none } else q)
    ∷ drop_unmatched ns qs

-- `_check_rubric`
unfoldable pub check_rubric : ℕ → GeneratedPlan → Result RubricError GeneratedPlan
check_rubric one g = do
  raise_if (not (all_distinct (names g.criteria))) duplicate_names
  cs ← normalise_weights one g.criteria
  ok (record { questions = drop_unmatched (names g.criteria) g.questions; criteria = cs })

-- a whole validation: the fields, then the rubric
unfoldable pub validate : ℕ → GeneratedPlan → Result RubricError GeneratedPlan
validate one g = do raise_if (not (fields_valid one g)) bad_field; check_rubric one g
