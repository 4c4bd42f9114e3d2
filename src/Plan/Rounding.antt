-- ===== src/Plan/Rounding.antt =====
-- `Decimal.quantize` on a quotient of natural numbers, in its two rounding modes, with the error
-- bounds that the rubric's arithmetic rests on. The quotient is taken exactly: Python carries 28
-- digits, and a tie can appear or vanish at the 28th only for denominators far above the weights
-- and scores of a rubric.
use ai_interviewer.Base.{ℕ, ◌+◌, ◌*◌, ◌/◌, ◌%◌, ◌≤◌, ◌<◌, arith, ltb, ◌==◌, if◌then◌else◌}

-- ROUND_HALF_EVEN, the default of a decimal context
unfoldable pub round_half_even : ℕ → ℕ → ℕ
round_half_even n d =
    let q = n / d in
    let r = 2 * (n % d) in
    if ltb r d then q else if ltb d r then q + 1 else if q % 2 == 0 then q else q + 1

-- ROUND_HALF_UP
unfoldable pub round_half_up : ℕ → ℕ → ℕ
round_half_up n d = if ltb (2 * (n % d)) d then n / d else n / d + 1

pub round_half_even_bounds :
    (n d : ℕ)
    → 0 < d
    → (2 * (round_half_even n d * d) ≤ 2 * n + d) × (2 * n ≤ 2 * (round_half_even n d * d) + d)
unfolding round_half_even
round_half_even_bounds n d h = grind arith

pub round_half_up_bounds :
    (n d : ℕ)
    → 0 < d
    → (2 * (round_half_up n d * d) ≤ 2 * n + d) × (2 * n < 2 * (round_half_up n d * d) + d)
unfolding round_half_up
round_half_up_bounds n d h = grind arith

pub mul_mono : (a b t : ℕ) → a ≤ b → a * t ≤ b * t
mul_mono a b t h = grind arith
