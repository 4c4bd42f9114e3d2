-- ===== src/Plan/Sound.antt =====
-- The invariant of a plan between two edits.
pub mod Rows
pub mod Edits
use ai_interviewer.Base.{ℕ, zero, suc, ◌≡◌, ◌⊎◌, true, false, Option, List, [], ◌∷◌}
use ai_interviewer.Base.Lists.{All, sum, is_empty}
use ai_interviewer.Base.Text.{Text, all_distinct}
use ai_interviewer.Plan.{Question, Criterion, Plan, frozen}
use ai_interviewer.Plan.Edits.{criterion_names, weights, is_orphan}

-- the ordinals count up from `n`
abbrev pub Numbered : ℕ → List ℕ → Type 0
Numbered n [] = Unit
Numbered n (k ∷ ks) = (k ≡ n) × Numbered (suc n) ks

abbrev pub question_ordinals : List Question → List ℕ
question_ordinals [] = []
question_ordinals (q ∷ qs) = q.ordinal ∷ question_ordinals qs

abbrev pub criterion_ordinals : List Criterion → List ℕ
criterion_ordinals [] = []
criterion_ordinals (c ∷ cs) = c.ordinal ∷ criterion_ordinals cs

-- no question names a criterion that is not among `ns`
abbrev pub AllTagged : List Text → List Question → Type 0
AllTagged ns qs = All (λ q. is_orphan ns q.competency ≡ false) qs

pub record IsSound (p : Plan) : Type 0 where
  pub whole : (p.criteria ≡ []) ⊎ (sum (weights p.criteria) ≡ 10000)
  pub distinct : all_distinct (criterion_names p.criteria) ≡ true
  pub tagged : AllTagged (criterion_names p.criteria) p.questions
  pub questions_numbered : Numbered 0 (question_ordinals p.questions)
  pub criteria_numbered : Numbered 0 (criterion_ordinals p.criteria)
  pub filled : p.status ≡ frozen → (is_empty p.questions ≡ false) × (is_empty p.criteria ≡ false)
