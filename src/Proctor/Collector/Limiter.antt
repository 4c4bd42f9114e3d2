-- ===== src/Proctor/Collector/Limiter.antt =====
-- The rate limiter: how much one connection can get through.
use ai_interviewer.Base.{
  ℕ, ◌+◌, ◌-◌, ◌*◌, ◌/◌, ◌≤◌, ◌<◌, ◌≡◌, refl, Bool, true, false, List, [], ◌∷◌, arith,
  if◌then◌else◌, Bool-cases, leb, inl, inr,
}
use Prim.Native.Nat.{min}
use ai_interviewer.Base.Lists.{length}
use ai_interviewer.Proctor.Collector.{RateLimiter, window, allow}

-- the limiter after calls at the given times, and how many of them it allowed
unfoldable pub run_limiter : List ℕ → RateLimiter → RateLimiter × ℕ
run_limiter [] r = (r, 0)
run_limiter (t ∷ ts) r =
    let (s, yes?) = allow t r in let (u, n) = run_limiter ts s in (u, if yes? then n + 1 else n)

-- the clock does not run backwards, and stops at `last`
abbrev pub Ascending : ℕ → ℕ → List ℕ → Type 0
Ascending from last [] = from ≤ last
Ascending from last (t ∷ ts) = (from ≤ t) × Ascending t last ts

-- A call either leaves the window as it is or opens a new one at least a window later.
data Call (t : ℕ) (r : RateLimiter) : Type 0 where
  stays :
      (allow t r).0.window_started ≡ r.window_started
      → (allow t r).0.limit ≡ r.limit
      → (allow t r).0.count ≡ r.count + 1
      → ((allow t r).1 ≡ true → r.count < r.limit)
      → Call t r
  opens :
      r.window_started + window ≤ t
      → (allow t r).0.window_started ≡ t
      → (allow t r).0.limit ≡ r.limit
      → (allow t r).0.count ≡ 1
      → ((allow t r).1 ≡ true → 0 < r.limit)
      → Call t r

allow-Call : (t : ℕ) (r : RateLimiter) → Call t r
allow-Call t r = elim (Bool-cases (leb window (t - r.window_started))) [
  | inl e ↦
      unfold allow in
      opens (ground arith) (ground arith) (ground arith) (ground arith) (ground arith)
  | inr e ↦ unfold allow in stays (ground arith) (ground arith) (ground arith) (ground arith)
]

le_budget : (l q : ℕ) → l ≤ l * (q + 1)
le_budget l q = grind arith

-- A window's worth of time makes room for a limit's worth of events.
budget_step : (l p q : ℕ) → q + 1 ≤ p → l * (q + 1) + l ≤ l * (p + 1)
budget_step l p q h = grind arith

budget : RateLimiter → ℕ → ℕ
budget r last = r.limit * ((last - r.window_started) / window + 1)

Ascending-weaken : (a b last : ℕ) (ts : List ℕ) → a ≤ b → Ascending b last ts → Ascending a last ts
Ascending-weaken a b last [] h k = omega arith
Ascending-weaken a b last (t ∷ ts) h k = (omega arith, k.1)

Ascending-le : (a last : ℕ) (ts : List ℕ) → Ascending a last ts → a ≤ last
Ascending-le a last [] h = h
Ascending-le a last (t ∷ ts) h = let rest = Ascending-le t last ts h.1 in omega arith

spend_stays :
    (n c l b : ℕ) (y : Bool)
    → (y ≡ true → c < l)
    → n + min (c + 1) l ≤ b
    → (if y then n + 1 else n) + min c l ≤ b
spend_stays n c l b true g h = let room : c < l = g refl in omega arith
spend_stays n c l b false g h = omega arith

spend_opens :
    (n c l b d : ℕ) (y : Bool)
    → (y ≡ true → 0 < l)
    → n + min 1 l ≤ b
    → b + l ≤ d
    → (if y then n + 1 else n) + min c l ≤ d
spend_opens n c l b d true g h k = let room : 0 < l = g refl in omega arith
spend_opens n c l b d false g h k = omega arith

-- What is allowed, with what the current window has used, fits the windows left.
spend :
    (last : ℕ) (ts : List ℕ) (r : RateLimiter)
    → Ascending r.window_started last ts
    → (run_limiter ts r).1 + min r.count r.limit ≤ budget r last
unfolding run_limiter budget
spend last [] r a = omega (arith, le_budget r.limit ((last - r.window_started) / window))
spend last (t ∷ ts) r a = elim (allow-Call t r) [
  | stays w l c g ↦
      let ih =
        spend last ts (allow t r).0 (rw w (Ascending-weaken r.window_started t last ts a.0 a.1)) in
      spend_stays (run_limiter ts (allow t r).0).1 r.count r.limit _ (allow t r).1 g
        (rw (w, l, c) at ih)
  | opens late w l c g ↦
      let ih = spend last ts (allow t r).0 (rw w a.1) in
      spend_opens (run_limiter ts (allow t r).0).1 r.count r.limit
        (r.limit * ((last - t) / window + 1)) _ (allow t r).1 g (rw (w, l, c) at ih)
        (budget_step r.limit ((last - r.window_started) / window) ((last - t) / window)
          (let late_enough = Ascending-le t last ts a.1 in omega arith))
]

-- From when its window began until `last`, whatever the calls, the limiter allows at most its limit for
-- each window begun.
pub allowed-le :
    (ts : List ℕ) (r : RateLimiter) (last : ℕ)
    → Ascending r.window_started last ts
    → (run_limiter ts r).1 ≤ r.limit * ((last - r.window_started) / window + 1)
unfolding budget
allowed-le ts r last a = omega (arith, spend last ts r a)

allow-dropped :
    (t : ℕ) (r : RateLimiter)
    → (allow t r).0.dropped ≡ (if (allow t r).1 then r.dropped else r.dropped + 1)
unfolding allow
allow-dropped t r = ground arith

-- Every call is allowed or dropped, and the limiter counts the drops.
pub allowed-add-dropped :
    (ts : List ℕ) (r : RateLimiter)
    → (run_limiter ts r).1 + (run_limiter ts r).0.dropped ≡ r.dropped + length ts
unfolding run_limiter
allowed-add-dropped [] r = omega arith
allowed-add-dropped (t ∷ ts) r =
    ground (arith, allow-dropped t r, allowed-add-dropped ts (allow t r).0)
