-- ===== src/Plan/Generator/Shares.antt =====
-- The weights of `_normalise_weights` against those that the model gave.
use ai_interviewer.Base.{
  ℕ, ◌+◌, ◌-◌, ◌*◌, ◌≤◌, ◌<◌, ◌≡◌, refl, ap, List, [], ◌∷◌, ok, arith, inl, inr, ◌==◌, Bool-cases,
}
use ai_interviewer.Base.Lists.{length}
use ai_interviewer.Plan.Rounding.{mul_mono, round_half_even_bounds}
use ai_interviewer.Plan.Generator.{
  GeneratedCriterion, weight_sum, quantize, heaviest, reweigh_first, settle_drift,
  normalise_weights,
}
use ai_interviewer.Plan.Generator.Weights.{
  quantize-sum, cancel_le, quantize-room, normalise_weights-inv,
}

-- Criterion by criterion: the same but for the weight, which is the criterion's share of the total
-- up to `slack` halves of a ten-thousandth.
abbrev pub Near : ℕ → ℕ → List GeneratedCriterion → List GeneratedCriterion → Type 0
Near slack t [] [] = Unit
Near slack t (c ∷ cs) (d ∷ ds) =
    (d ≡ record c { weight = d.weight })
    × (2 * (d.weight * t) ≤ 20000 * c.weight + slack * t)
    × (20000 * c.weight ≤ 2 * (d.weight * t) + slack * t)
    × Near slack t cs ds
Near slack t _ _ = ⊥

quantize-Near : (t : ℕ) (cs : List GeneratedCriterion) → 0 < t → Near 1 t cs (quantize t cs)
unfolding quantize
quantize-Near t [] h = tt
quantize-Near t (c ∷ cs) h =
    let (above, below) = round_half_even_bounds (c.weight * 10000) t h in
    (refl, omega arith, omega arith, quantize-Near t cs h)

Near-widen : (a b t : ℕ) (cs ds : List GeneratedCriterion) → a ≤ b → Near a t cs ds → Near b t cs ds
Near-widen a b t [] [] h n = tt
Near-widen a b t (c ∷ cs) (d ∷ ds) h n =
    let wider = mul_mono a b t h in (n.0, omega arith, omega arith, Near-widen a b t cs ds h n.3)
Near-widen a b t [] (d ∷ ds) h n = n
Near-widen a b t (c ∷ cs) [] h n = n

-- A weight moved by no more than half of `s` stays near.
reweigh_first-Near :
    (a s t m v : ℕ) (cs ds : List GeneratedCriterion)
    → 2 * v ≤ 2 * m + s
    → 2 * m ≤ 2 * v + s
    → Near a t cs ds
    → Near (a + s) t cs (reweigh_first m v ds)
unfolding reweigh_first
reweigh_first-Near a s t m v [] [] up down n = tt
reweigh_first-Near a s t m v [] (d ∷ ds) up down n = absurd n
reweigh_first-Near a s t m v (c ∷ cs) [] up down n = n
reweigh_first-Near a s t m v (c ∷ cs) (d ∷ ds) up down n = elim (Bool-cases (d.weight == m)) [
  | inl e ↦ rw e (
      let at_most = mul_mono (2 * v) (2 * m + s) t up in
      let at_least = mul_mono (2 * m) (2 * v + s) t down in
      let same : d.weight * t ≡ m * t = ap (λ (w : ℕ). w * t) (ground arith) in
      (cc n.0, omega arith, omega arith, Near-widen a (a + s) t cs ds (omega arith) n.3))
  | inr e ↦ rw e (n.0, omega arith, omega arith, reweigh_first-Near a s t m v cs ds up down n.3)
]

settle-Near :
    (cs : List GeneratedCriterion)
    → 0 < weight_sum cs
    → length cs ≤ 99
    → Near (1 + length cs) (weight_sum cs) cs (settle_drift (quantize (weight_sum cs) cs))
unfolding settle_drift
settle-Near cs h k =
    let t = weight_sum cs in
    let qs = quantize t cs in
    let n = length cs in
    let (above, below) = quantize-sum t cs h in
    let fits = quantize-room t cs h refl k in
    let high = cancel_le (2 * weight_sum qs) (20000 + n) t h (omega arith) in
    let low = cancel_le 20000 (2 * weight_sum qs + n) t h (omega arith) in
    elim (Bool-cases (weight_sum qs == 10000)) [
      | inl exact ↦ rw exact (Near-widen 1 (1 + n) t cs qs (omega arith) (quantize-Near t cs h))
      | inr off ↦ rw off (
          reweigh_first-Near 1 n t (heaviest qs) (heaviest qs + 10000 - weight_sum qs) cs qs
            (omega arith) (omega arith) (quantize-Near t cs h))
    ]

-- Normalising n criteria changes nothing but the weights, and leaves each of them within (n + 1) / 2
-- ten-thousandths of the criterion's share of the total.
pub normalise_weights-Near :
    (one : ℕ) (cs ds : List GeneratedCriterion)
    → 0 < one
    → length cs ≤ 99
    → normalise_weights one cs ≡ ok ds
    → Near (1 + length cs) (weight_sum cs) cs ds
normalise_weights-Near one cs ds h k e =
    let (pos, eq) = normalise_weights-inv one cs ds h e in rw eq (settle-Near cs pos k)
