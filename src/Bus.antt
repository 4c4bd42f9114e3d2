-- ===== src/Bus.antt =====
-- The event bus: `EventBus` of app/core/events.py. An event type and a handler are numbers; a handler leaves
-- a state, also where it raises. A task is what `publish` makes of a handler; the order in which tasks come to
-- their end is not the bus's choice.
pub mod Delivery
use ai_interviewer.Base.{
  ℕ, suc, ◌+◌, Bool, true, false, ◌&&◌, Option, none, some, List, [], ◌∷◌, ◌++◌, Result, ok, err,
  ◌==◌, if◌then◌else◌,
}
use ai_interviewer.Base.Lists.{length}

-- `_handlers`, in the order of the subscriptions
abbrev pub Handlers : Type 0
Handlers = List (ℕ × ℕ)

unfoldable pub subscribe_handler : (event_type handler : ℕ) → Handlers → Handlers
subscribe_handler t h hs = hs ++ (t, h) ∷ []

-- `_unsubscribe`, which removes the first of its subscriptions, if there is one
unfoldable pub unsubscribe : (event_type handler : ℕ) → Handlers → Handlers
unsubscribe t h [] = []
unsubscribe t h ((u, g) ∷ hs) =
    let rest = unsubscribe t h hs in if (u == t) && (g == h) then hs else (u, g) ∷ rest

unfoldable pub handlers_of : ℕ → Handlers → List ℕ
handlers_of t [] = []
handlers_of t ((u, h) ∷ hs) = let rest = handlers_of t hs in if u == t then h ∷ rest else rest

module _ {E S X : Type 0} (event_type : E → ℕ) (call : ℕ → E → S → S × Option X) where
  pub record Task : Type 0 where
    pub id : ℕ
    pub handler : ℕ
    pub event : E

  -- the bus, with the state that its handlers share, the runs that are over and those of them that raised, which
  -- are logged, the latest first, and the next task's identity
  pub record EventBus : Type 0 where
    pub handlers : Handlers
    pub tasks : List Task
    pub state : S
    pub done : List (ℕ × E)
    pub logged : List (ℕ × E)
    pub next : ℕ

  -- the tasks that `publish` creates
  unfoldable pub create_tasks : List ℕ → E → ℕ → List Task
  create_tasks [] e i = []
  create_tasks (h ∷ hs) e i = record { id = i; handler = h; event = e } ∷ create_tasks hs e (suc i)

  unfoldable pub publish_event : E → EventBus → EventBus
  publish_event e b =
      let hs = handlers_of (event_type e) b.handlers in
      record b { tasks = b.tasks ++ create_tasks hs e b.next; next = b.next + length hs }

  -- `_tasks.discard` of the task with that identity
  unfoldable pub take_task : ℕ → List Task → Option (Task × List Task)
  take_task i [] = none
  take_task i (t ∷ ts) =
      if t.id == i
      then some (t, ts)
      else elim (take_task i ts) [ none ↦ none | some (u, us) ↦ some (u, t ∷ us) ]

  -- `_run` of one task, which has come to its end
  unfoldable pub run_task : ℕ → EventBus → EventBus
  run_task i b = elim (take_task i b.tasks) [
    | none ↦ b
    | some (t, rest) ↦ record b {
      tasks = rest;
      state = (call t.handler t.event b.state).0;
      done = (t.handler, t.event) ∷ b.done;
      logged = elim (call t.handler t.event b.state).1 [
        | none ↦ b.logged
        | some _ ↦ (t.handler, t.event) ∷ b.logged
      ];
    }
  ]

  unfoldable pub pending_count : EventBus → ℕ
  pending_count b = length b.tasks

  pub data Action : Type 0 where
    subscribes unsubscribes : (event_type handler : ℕ) → Action
    publishes : E → Action
    finishes : ℕ → Action
    clears : Action

  unfoldable pub act : Action → EventBus → EventBus
  act (subscribes t h) b = record b { handlers = subscribe_handler t h b.handlers }
  act (unsubscribes t h) b = record b { handlers = unsubscribe t h b.handlers }
  act (publishes e) b = publish_event e b
  act (finishes i) b = run_task i b
  act clears b = record b { handlers = [] }

  unfoldable pub run_bus : List Action → EventBus → EventBus
  run_bus [] b = b
  run_bus (a ∷ rest) b = run_bus rest (act a b)
