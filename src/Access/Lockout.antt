-- ===== src/Access/Lockout.antt =====
-- Sequences of attempts on the rate limit of app/core/dependencies.py.
use ai_interviewer.Base.{
  ℕ, ◌+◌, ◌-◌, ◌≤◌, ◌<◌, ◌≡◌, refl, ap, Bool, true, false, Option, none, some, List, [], ◌∷◌, arith,
  Result, ok, err, ltb, leb, zero, suc, Bool-cases, inl, inr, ◌∙◌,
}
use ai_interviewer.Access.{AccessError}
use ai_interviewer.Access.Callers.{Counter, count_attempt, rate_limit}

abbrev pub is_accepted : Result AccessError (Unit {0}) → Bool
is_accepted (ok _) = true
is_accepted (err _) = false

-- whether each attempt is accepted, at its time
unfoldable pub attempts : (limit window : ℕ) → List ℕ → Option Counter → List Bool
attempts limit window [] stored = []
attempts limit window (now ∷ times) stored =
    is_accepted (rate_limit limit window now stored).0
    ∷ attempts limit window times (some (rate_limit limit window now stored).1)

-- each attempt comes before the window after the last one is over
abbrev pub Close : ℕ → ℕ → List ℕ → Type 0
Close window last [] = Unit
Close window last (now ∷ times) = (last ≤ now) × (now < last + window) × Close window now times

-- `n` attempts are accepted, and none after them
abbrev pub granted : ℕ → List ℕ → List Bool
granted n [] = []
granted zero (_ ∷ times) = false ∷ granted 0 times
granted (suc n) (_ ∷ times) = true ∷ granted n times

Close-granted :
    (limit window last count : ℕ) (times : List ℕ)
    → Close window last times
    → attempts limit window times (some (record { count = count; expires_at = last + window }))
      ≡ granted (limit - count) times
unfolding attempts rate_limit count_attempt
Close-granted limit window last count [] close = refl
Close-granted limit window last count (now ∷ times) (after, soon, rest) =
    let kept : leb (last + window) now ≡ false = ground arith in
    let later = Close-granted limit window now (count + 1) times rest in
    elim (Bool-cases (ltb limit (count + 1))) [
      | inl over ↦
          let none_left : limit - count ≡ 0 = ground arith in
          let still_none : limit - (count + 1) ≡ 0 = ground arith in
          rw (kept, over, none_left) (ap (λ l. false ∷ l) (later ∙ rw still_none refl))
      | inr under ↦
          let one_left : limit - count ≡ suc (limit - (count + 1)) = ground arith in
          rw (kept, under, one_left) (ap (λ l. true ∷ l) later)
    ]

-- Attempts of which each comes before the window after the one before it is over: the first `limit` of them
-- are accepted and none after those, however long the attempts go on.
pub attempts-granted :
    (limit window first : ℕ) (times : List ℕ)
    → Close window first times
    → attempts limit window (first ∷ times) none ≡ granted limit (first ∷ times)
unfolding attempts rate_limit count_attempt
attempts-granted zero window first times close =
    ap (λ l. false ∷ l) (Close-granted 0 window first 1 times close)
attempts-granted (suc limit) window first times close =
    let under : ltb (suc limit) 1 ≡ false = ground arith in
    let left : suc limit - 1 ≡ limit = omega arith in
    rw under
      (ap (λ l. true ∷ l) (Close-granted (suc limit) window first 1 times close ∙ rw left refl))
