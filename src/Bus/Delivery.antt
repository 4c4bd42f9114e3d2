-- ===== src/Bus/Delivery.antt =====
-- The runs that are due for what was published, against those that the bus of app/core/events.py
-- makes.
use ai_interviewer.Base.{
  ℕ, ◌+◌, ◌-◌, ◌&&◌, Bool, Option, List, [], ◌∷◌, ◌++◌, map, ◌==◌, if◌then◌else◌,
}
use ai_interviewer.Bus.{
  Handlers, subscribe_handler, unsubscribe, handlers_of, Task, EventBus, Action, subscribes,
  unsubscribes, publishes, finishes, clears,
}

module _ {E S X : Type 0} (event_type : E → ℕ) (call : ℕ → E → S → S × Option X) where
  -- the runs that the bus makes tasks of, in order
  unfoldable due : List (Action event_type call) → Handlers → List (ℕ × E)
  due [] hs = []
  due (subscribes t h ∷ rest) hs = due rest (subscribe_handler t h hs)
  due (unsubscribes t h ∷ rest) hs = due rest (unsubscribe t h hs)
  due (publishes e ∷ rest) hs = map (λ h. (h, e)) (handlers_of (event_type e) hs) ++ due rest hs
  due (finishes i ∷ rest) hs = due rest hs
  due (clears ∷ rest) hs = due rest []

  -- the state after the runs, the latest first, made one after the other
  unfoldable pub replay : List (ℕ × E) → S → S
  replay [] s = s
  replay ((h, e) ∷ d) s = (call h e (replay d s)).0

  abbrev Bus : Type 0
  Bus = EventBus event_type call

  -- the runs of a kind among these
  abbrev pub count_runs : (ℕ × E → Bool) → List (ℕ × E) → ℕ
  count_runs p [] = 0
  count_runs p (x ∷ xs) = (if p x then 1 else 0) + count_runs p xs

  abbrev pub pending_runs : List (Task event_type call) → List (ℕ × E)
  pending_runs ts = map (λ t. (t.handler, t.event)) ts

  -- the runs that are over and those that are pending
  abbrev runs : (ℕ × E → Bool) → Bus → ℕ
  runs p b = count_runs p b.done + count_runs p (pending_runs b.tasks)

  abbrev pub new_bus : S → Bus
  new_bus s = record { handlers = []; tasks = []; state = s; done = []; logged = []; next = 0 }

  -- What is owed to handler `h`, of the events that pass the test: for each that is published, one run for every
  -- subscription of it to that type of event which is in force by then. `held` counts those, by type.
  unfoldable pub owed : (h : ℕ) → (E → Bool) → List (Action event_type call) → (held : ℕ → ℕ) → ℕ
  owed h q [] held = 0
  owed h q (subscribes t g ∷ rest) held =
      owed h q rest (λ u. if (u == t) && (g == h) then held u + 1 else held u)
  owed h q (unsubscribes t g ∷ rest) held =
      owed h q rest (λ u. if (u == t) && (g == h) then held u - 1 else held u)
  owed h q (publishes e ∷ rest) held = (if q e then held (event_type e) else 0) + owed h q rest held
  owed h q (finishes i ∷ rest) held = owed h q rest held
  owed h q (clears ∷ rest) held = owed h q rest (λ _. 0)

  abbrev pub of_handler : ℕ → (E → Bool) → ℕ × E → Bool
  of_handler h q x = (x.0 == h) && q x.1

  abbrev holds : ℕ → ℕ → Handlers → ℕ
  holds h u [] = 0
  holds h u ((t, g) ∷ hs) = (if (u == t) && (g == h) then 1 else 0) + holds h u hs
