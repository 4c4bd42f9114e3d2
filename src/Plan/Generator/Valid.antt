-- ===== src/Plan/Generator/Valid.antt =====
-- What a generated plan that passed `GeneratedPlan`'s validators satisfies.
use ai_interviewer.Base.{
  ℕ, ◌≤◌, ◌<◌, ◌≡◌, refl, List, [], ◌∷◌, ok, arith, true, false, ap, inl, inr, Result-cases,
}
use ai_interviewer.Base.Lists.{length, All}
use ai_interviewer.Base.Text.{Text, all_distinct, strip}
use ai_interviewer.Plan.Generator.{
  GeneratedCriterion, GeneratedQuestion, GeneratedPlan, weight_sum, names, normalise_weights,
  is_unmatched, drop_unmatched, check_rubric,
}
use ai_interviewer.Plan.Generator.Weights.{normalise_weights-sum}
use ai_interviewer.Plan.Generator.Shares.{Near, normalise_weights-Near}

pub record IsValidated (g : GeneratedPlan) : Type 0 where
  pub whole : weight_sum g.criteria ≡ 10000
  pub distinct : all_distinct (names g.criteria) ≡ true
  pub matched : All (λ q. is_unmatched (names g.criteria) q.competency ≡ false) g.questions

Near-names : (a t : ℕ) (cs ds : List GeneratedCriterion) → Near a t cs ds → names ds ≡ names cs
Near-names a t [] [] n = refl
Near-names a t (c ∷ cs) (d ∷ ds) n =
    cc (ap (λ (x : GeneratedCriterion). strip x.name) n.0, Near-names a t cs ds n.3)
Near-names a t [] (d ∷ ds) n = absurd n
Near-names a t (c ∷ cs) [] n = absurd n

drop_unmatched-matched :
    (ns : List Text) (qs : List GeneratedQuestion)
    → All (λ q. is_unmatched ns q.competency ≡ false) (drop_unmatched ns qs)
unfolding drop_unmatched
drop_unmatched-matched ns [] = tt
drop_unmatched-matched ns (q ∷ qs) = (ground arith, drop_unmatched-matched ns qs)

-- A plan that passes `_check_rubric` has a rubric that is whole and names each criterion once, and no
-- question of it is tagged with a criterion that the rubric lacks.
pub check_rubric-IsValidated :
    (one : ℕ) (g h : GeneratedPlan)
    → 0 < one
    → length g.criteria ≤ 99
    → check_rubric one g ≡ ok h
    → IsValidated h
unfolding check_rubric
check_rubric-IsValidated one g h p k e = elim (Result-cases (normalise_weights one g.criteria)) [
  | inr (x, bad) ↦ ground arith
  | inl (ds, good) ↦
      let same = Near-names _ _ g.criteria ds (normalise_weights-Near one g.criteria ds p k good) in
      let eq : h
          ≡ record { questions = drop_unmatched (names g.criteria) g.questions; criteria = ds } =
        ground arith in
      let once : all_distinct (names g.criteria) ≡ true = ground arith in
      rw eq (record {
        whole = normalise_weights-sum one g.criteria ds p k good;
        distinct = rw same once;
        matched = rw same (drop_unmatched-matched (names g.criteria) g.questions);
      })
]
