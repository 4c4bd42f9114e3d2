-- ===== src/Plan/Generator/Weights.antt =====
-- The sum of the weights through `_normalise_weights`.
use ai_interviewer.Base.{
  ℕ, ◌+◌, ◌-◌, ◌*◌, ◌≤◌, ◌<◌, ◌≡◌, refl, ap, true, List, [], ◌∷◌, ok, arith, ◌==◌, Bool-cases, inl,
  inr,
}
use ai_interviewer.Base.Lists.{length, some_of}
use ai_interviewer.Plan.Rounding.{round_half_even, round_half_even_bounds}
use ai_interviewer.Plan.Generator.{
  GeneratedCriterion, weight_sum, quantize, heaviest, reweigh_first, settle_drift,
  normalise_weights,
}

pub quantize-length : (t : ℕ) (cs : List GeneratedCriterion) → length (quantize t cs) ≡ length cs
unfolding quantize
quantize-length t [] = refl
quantize-length t (c ∷ cs) = omega (arith, quantize-length t cs)

-- Rounding each share moves the sum by at most half a ten-thousandth for each criterion.
pub quantize-sum :
    (t : ℕ) (cs : List GeneratedCriterion)
    → 0 < t
    → (2 * (weight_sum (quantize t cs) * t) ≤ 20000 * weight_sum cs + length cs * t)
      × (20000 * weight_sum cs ≤ 2 * (weight_sum (quantize t cs) * t) + length cs * t)
unfolding quantize
quantize-sum t [] h = omega arith
quantize-sum t (c ∷ cs) h =
    omega (arith, quantize-sum t cs h, round_half_even_bounds (c.weight * 10000) t h)

pub heaviest-mem :
    (c : GeneratedCriterion) (cs : List GeneratedCriterion)
    → some_of (λ d. d.weight == heaviest (c ∷ cs)) (c ∷ cs) ≡ true
unfolding heaviest
heaviest-mem c [] = ground arith
heaviest-mem c (d ∷ ds) = ground (arith, heaviest-mem d ds)

heaviest-cons :
    (m : ℕ) (c : GeneratedCriterion) (cs : List GeneratedCriterion)
    → heaviest (c ∷ cs) ≤ m
    → (c.weight ≤ m) × (heaviest cs ≤ m)
unfolding heaviest
heaviest-cons m c cs h = ground arith

sum-le-mul :
    (m : ℕ) (cs : List GeneratedCriterion) → heaviest cs ≤ m → weight_sum cs ≤ length cs * m
sum-le-mul m [] h = omega arith
sum-le-mul m (c ∷ cs) h =
    let (first, rest) = heaviest-cons m c cs h in omega (arith, sum-le-mul m cs rest)

reweigh_first-sum :
    (m v : ℕ) (cs : List GeneratedCriterion)
    → some_of (λ d. d.weight == m) cs ≡ true
    → weight_sum (reweigh_first m v cs) + m ≡ weight_sum cs + v
unfolding reweigh_first
reweigh_first-sum m v [] h = cc
reweigh_first-sum m v (c ∷ cs) h = ground (arith, reweigh_first-sum m v cs)

-- The heaviest weight can take the drift whenever the excess is no more than it.
settle_drift-sum :
    (c : GeneratedCriterion) (cs : List GeneratedCriterion)
    → weight_sum (c ∷ cs) ≤ heaviest (c ∷ cs) + 10000
    → weight_sum (settle_drift (c ∷ cs)) ≡ 10000
unfolding settle_drift
settle_drift-sum c cs h = elim (Bool-cases (weight_sum (c ∷ cs) == 10000)) [
  | inl exact ↦ rw exact (ground arith)
  | inr off ↦ rw off (
      omega (
        arith,
        reweigh_first-sum (heaviest (c ∷ cs)) (heaviest (c ∷ cs) + 10000 - weight_sum (c ∷ cs))
            (c ∷ cs) (heaviest-mem c cs),
      ))
]

-- Both sides divided by the total.
pub cancel_le : (a b t : ℕ) → 0 < t → a * t ≤ b * t → a ≤ b
cancel_le a b t h k = grind arith

mul_le_99 : (n h : ℕ) → n ≤ 99 → n * h ≤ 99 * h
mul_le_99 n h k = grind arith

-- What the sum q of n rounded weights and the heaviest h of them satisfy.
room : (n q h : ℕ) → n ≤ 99 → 2 * q ≤ 20000 + n → 20000 ≤ 2 * q + n → q ≤ n * h → q ≤ h + 10000
room n q h k hi lo cap = omega (arith, mul_le_99 n h k)

-- With at most ninety-nine criteria the heaviest weight exceeds the excess that rounding makes.
pub quantize-room :
    (t : ℕ) (cs : List GeneratedCriterion)
    → 0 < t
    → weight_sum cs ≡ t
    → length cs ≤ 99
    → weight_sum (quantize t cs) ≤ heaviest (quantize t cs) + 10000
quantize-room t cs h e k =
    let q = weight_sum (quantize t cs) in
    let (above, below) = quantize-sum t cs h in
    room (length cs) q (heaviest (quantize t cs)) k
      (cancel_le (2 * q) (20000 + length cs) t h (omega arith))
      (cancel_le 20000 (2 * q + length cs) t h (omega arith))
      (omega (
        arith,
        sum-le-mul (heaviest (quantize t cs)) (quantize t cs) (omega arith),
        ap (λ (n : ℕ). n * heaviest (quantize t cs)) (quantize-length t cs),
      ))

settle-quantize-sum :
    (cs : List GeneratedCriterion)
    → 0 < weight_sum cs
    → length cs ≤ 99
    → weight_sum (settle_drift (quantize (weight_sum cs) cs)) ≡ 10000
unfolding quantize
settle-quantize-sum [] h k = absurd (omega arith)
settle-quantize-sum (c ∷ cs) h k =
    settle_drift-sum
      (record c { weight = round_half_even (c.weight * 10000) (weight_sum (c ∷ cs)) })
      (quantize (weight_sum (c ∷ cs)) cs) (quantize-room (weight_sum (c ∷ cs)) (c ∷ cs) h refl k)

-- What a rubric that passes is.
pub normalise_weights-inv :
    (one : ℕ) (cs ds : List GeneratedCriterion)
    → 0 < one
    → normalise_weights one cs ≡ ok ds
    → (0 < weight_sum cs) × (ds ≡ settle_drift (quantize (weight_sum cs) cs))
unfolding normalise_weights
normalise_weights-inv one cs ds h e = ground arith

-- A rubric of at most ninety-nine criteria that passes `_normalise_weights` has weights that sum to
-- exactly 1.0, in ten-thousandths.
pub normalise_weights-sum :
    (one : ℕ) (cs ds : List GeneratedCriterion)
    → 0 < one
    → length cs ≤ 99
    → normalise_weights one cs ≡ ok ds
    → weight_sum ds ≡ 10000
normalise_weights-sum one cs ds h k e =
    let (pos, eq) = normalise_weights-inv one cs ds h e in rw eq (settle-quantize-sum cs pos k)
