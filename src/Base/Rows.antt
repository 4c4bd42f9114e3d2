-- ===== src/Base/Rows.antt =====
-- A table of rows with a numeric key, as a session sees it: `session.get` finds a row by its key,
-- and a change to the row's object is written back in its place.
use Prim.Native.Nat.{ℕ}
use mathlib.Core.Path.{◌≡◌, refl}
use mathlib.Core.Logic.{◌≢◌}
use mathlib.Core.Option.{Option, none, some}
use mathlib.Core.List.{List, [], ◌∷◌}
use native.Mathlib.Omega.{arith}
use ai_interviewer.Base.Tests.{◌==◌, if◌then◌else◌}

module _ {R : Type 0} (key : R → ℕ) where
  unfoldable pub find : ℕ → List R → Option R
  find k [] = none
  find k (r ∷ rs) = if key r == k then some r else find k rs

  unfoldable pub replace : R → List R → List R
  replace r [] = []
  replace r (s ∷ rs) = if key s == key r then r ∷ rs else s ∷ replace r rs

  pub find-key : (k : ℕ) (r : R) (rs : List R) → find k rs ≡ some r → key r ≡ k
  unfolding find
  find-key k r [] h = cc
  find-key k r (s ∷ rs) h = ground (arith, find-key k r rs)

  pub find-replace_self :
      (k : ℕ) (r s : R) (rs : List R)
      → key r ≡ k
      → find k rs ≡ some s
      → find k (replace r rs) ≡ some r
  unfolding find replace
  find-replace_self k r s [] e h = cc
  find-replace_self k r s (x ∷ rs) e h = ground (arith, find-replace_self k r s rs e)

  pub find-replace_ne :
      (k : ℕ) (r : R) (rs : List R) → key r ≢ k → find k (replace r rs) ≡ find k rs
  unfolding find replace
  find-replace_ne k r [] h = refl
  find-replace_ne k r (x ∷ rs) h = ground (arith, find-replace_ne k r rs h)
