-- ===== src/Scoring/Overall.antt =====
-- The overall number of `aggregate`, its band and its recommendation.
use ai_interviewer.Base.{
  ℕ, ◌≤◌, ◌≡◌, refl, Bool, not, ◌&&◌, none, some, List, arith, ok, ◌==◌, Bool-cases, inl, inr, ◌⊎◌,
}
use ai_interviewer.Plan.Rounding.{round_half_up}
use ai_interviewer.Scoring.{
  insufficient_evidence, Outcome, band_for, Weighted, total_weight, graded_of, graded_weight,
  weighted_sum, clamp, ungraded, aggregate,
}

-- What an outcome may say: no number and no assessment, or a number of the band and its recommendation.
abbrev pub Consistent : Outcome → Type 0
Consistent o =
    ((o.overall ≡ none) × (o.recommendation ≡ insufficient_evidence))
    ⊎ ((n : ℕ) × (o.overall ≡ some n) × (100 ≤ n) × (n ≤ 500) × (o.recommendation ≡ band_for n))

clamp-Band : (n : ℕ) → (100 ≤ clamp n) × (clamp n ≤ 500)
unfolding clamp
clamp-Band n = ground arith

ungraded-Consistent : (scored : List Weighted) (p : Bool) → Consistent (ungraded scored p)
unfolding ungraded band_for
ungraded-Consistent scored p = elim (Bool-cases (p && not (total_weight scored == 0))) [
  | inl e ↦ rw e (inr (100, refl, omega arith, omega arith, refl))
  | inr e ↦ rw e (inl (refl, refl))
]

-- Whatever the weights and the scores are, an outcome that is returned has either no number and is not
-- an assessment, or a number from 1.00 to 5.00 and the recommendation of its band.
pub aggregate-Consistent :
    (scored : List Weighted) (participated : Bool) (o : Outcome)
    → aggregate scored participated ≡ ok o
    → Consistent o
unfolding aggregate
aggregate-Consistent scored p o h =
    let graded = graded_of scored in
    ground (
      arith,
      ungraded-Consistent scored p,
      clamp-Band (round_half_up (weighted_sum graded) (graded_weight graded)),
    )
