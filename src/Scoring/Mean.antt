-- ===== src/Scoring/Mean.antt =====
-- The overall number of `aggregate` as a weighted mean.
use ai_interviewer.Base.{
  ℕ, ◌+◌, ◌*◌, ◌≤◌, ◌<◌, ◌≡◌, refl, Bool, false, none, some, List, [], ◌∷◌, arith, ok, ltb, leb,
  Bool-cases, inl, inr,
}
use ai_interviewer.Base.Lists.{All, is_empty}
use ai_interviewer.Plan.Rounding.{mul_mono, round_half_up, round_half_up_bounds}
use ai_interviewer.Scoring.{
  Outcome, Weighted, total_weight, graded_of, graded_weight, weighted_sum, clamp, ungraded,
  aggregate,
}

pub round_half_up_mono : (n m d : ℕ) → 0 < d → n ≤ m → round_half_up n d ≤ round_half_up m d
round_half_up_mono n m d p h =
    let low = round_half_up_bounds n d p in
    let high = round_half_up_bounds m d p in
    elim (Bool-cases (leb (round_half_up n d) (round_half_up m d))) [
      | inl e ↦ ground arith
      | inr e ↦ absurd (
          omega (
            arith,
            low.0,
            high.1,
            mul_mono (round_half_up m d + 1) (round_half_up n d) d (ground arith),
          ))
    ]

pub round_half_up-exact : (k d : ℕ) → 0 < d → round_half_up (k * d) d ≡ k
round_half_up-exact k d p =
    let (low, high) = round_half_up_bounds (k * d) d p in
    elim (Bool-cases (ltb k (round_half_up (k * d) d))) [
      | inl above ↦
          absurd (omega (arith, low, mul_mono (k + 1) (round_half_up (k * d) d) d (ground arith)))
      | inr a ↦ elim (Bool-cases (ltb (round_half_up (k * d) d) k)) [
        | inl below ↦
            absurd (omega (arith, high, mul_mono (round_half_up (k * d) d + 1) k d (ground arith)))
        | inr b ↦ ground (arith, a, b)
      ]
    ]

pub clamp_mono : (n m : ℕ) → n ≤ m → clamp n ≤ clamp m
unfolding clamp
clamp_mono n m h = ground arith

clamp-inside : (n : ℕ) → 100 ≤ n → n ≤ 500 → clamp n ≡ n
unfolding clamp
clamp-inside n l h = ground arith

-- every score that was given is between two bounds
abbrev pub Between : ℕ → ℕ → Weighted → Type 0
Between lo hi (_, none) = Unit
Between lo hi (_, some score) = (lo ≤ score) × (score ≤ hi)

mul_between : (w lo s hi : ℕ) → lo ≤ s → s ≤ hi → (lo * w ≤ w * s) × (w * s ≤ hi * w)
mul_between w lo s hi l h = (grind arith, grind arith)

weighted_sum-Between :
    (lo hi : ℕ) (scored : List Weighted)
    → All (Between lo hi) scored
    → (lo * graded_weight (graded_of scored) ≤ weighted_sum (graded_of scored))
      × (weighted_sum (graded_of scored) ≤ hi * graded_weight (graded_of scored))
unfolding graded_of graded_weight weighted_sum
weighted_sum-Between lo hi [] h = (omega arith, omega arith)
weighted_sum-Between lo hi ((w, none) ∷ scored) h = weighted_sum-Between lo hi scored h.1
weighted_sum-Between lo hi ((w, some s) ∷ scored) h =
    let (low, high) = mul_between w lo s hi h.0.0 h.0.1 in
    let (rest_low, rest_high) = weighted_sum-Between lo hi scored h.1 in (grind arith, grind arith)

graded_of-total :
    (scored : List Weighted) → 0 < graded_weight (graded_of scored) → 0 < total_weight scored
unfolding graded_of graded_weight total_weight
graded_of-total [] h = absurd (omega arith)
graded_of-total ((w, none) ∷ scored) h = omega (arith, graded_of-total scored)
graded_of-total ((w, some s) ∷ scored) h = ground (arith, graded_of-total scored)

pub graded_of-weighs :
    (scored : List Weighted)
    → 0 < graded_weight (graded_of scored)
    → (is_empty (graded_of scored) ≡ false) × (0 < total_weight scored)
unfolding graded_of graded_weight total_weight
graded_of-weighs [] h = absurd (omega arith)
graded_of-weighs ((w, none) ∷ scored) h =
    let (some_graded, positive) = graded_of-weighs scored h in (some_graded, omega arith)
graded_of-weighs ((w, some s) ∷ scored) h = (refl, graded_of-total ((w, some s) ∷ scored) h)

rounded-Between :
    (lo hi : ℕ) (scored : List Weighted)
    → 100 ≤ lo
    → hi ≤ 500
    → lo ≤ hi
    → All (Between lo hi) scored
    → 0 < graded_weight (graded_of scored)
    → (lo
        ≤ clamp
            (round_half_up (weighted_sum (graded_of scored)) (graded_weight (graded_of scored))))
      × (clamp (round_half_up (weighted_sum (graded_of scored)) (graded_weight (graded_of scored)))
          ≤ hi)
rounded-Between lo hi scored l h lh b p =
    let graded = graded_of scored in
    let w = graded_weight graded in
    let (low, high) = weighted_sum-Between lo hi scored b in
    let from_low = round_half_up_mono (lo * w) (weighted_sum graded) w p low in
    let from_high = round_half_up_mono (weighted_sum graded) (hi * w) w p high in
    let low_exact = round_half_up-exact lo w p in
    let high_exact = round_half_up-exact hi w p in
    let inside = clamp-inside (round_half_up (weighted_sum graded) w) (omega arith) (omega arith) in
    (omega arith, omega arith)

-- The overall number of a rubric in which something was graded, with positive weight, lies between any
-- bounds, inside the band, that all the scores that were given lie between.
pub aggregate-Between :
    (lo hi : ℕ) (scored : List Weighted) (participated : Bool) (o : Outcome) (n : ℕ)
    → 100 ≤ lo
    → hi ≤ 500
    → lo ≤ hi
    → All (Between lo hi) scored
    → 0 < graded_weight (graded_of scored)
    → aggregate scored participated ≡ ok o
    → o.overall ≡ some n
    → (lo ≤ n) × (n ≤ hi)
unfolding aggregate ungraded
aggregate-Between lo hi scored p o n l h lh b w e f =
    ground (arith, rounded-Between lo hi scored l h lh b w, graded_of-weighs scored w)
