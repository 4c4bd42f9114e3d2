-- ===== src/Scenarios/Deliveries.antt =====
-- A scenario of the event bus: two handlers of one event, of which one fails.
use ai_interviewer.Base.{ℕ, ◌+◌, Bool, true, List, [], ◌∷◌, Option, none, some, ◌==◌, if◌then◌else◌}
use ai_interviewer.Bus.{Action, subscribes, publishes, finishes}

-- events are of one type; handler 1 adds the event to the sum, any other raises
abbrev one_type : ℕ → ℕ
one_type _ = 0

abbrev adds : ℕ → ℕ → ℕ → ℕ × Option Bool
adds h e s = if h == 1 then (s + e, none) else (s, some true)

abbrev two_handlers : List (Action one_type adds)
two_handlers = subscribes 0 1 ∷ subscribes 0 2 ∷ publishes 5 ∷ finishes 1 ∷ finishes 0 ∷ []

abbrev every : ℕ → Bool
every _ = true
