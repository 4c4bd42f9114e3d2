-- ===== src/Proctor/Socket.antt =====
-- The socket on which a browser reports: `proctoring_socket` of app/api/v1/proctoring.py, with `ClientEvent` of
-- app/schemas/proctoring.py. The end of the list of messages is the candidate's disconnecting, which is seen
-- where the next message is awaited. Times are microseconds of the server's clock, and seconds for the interview.
pub mod Heard
pub mod Reported
pub mod Rounds
pub mod Served
use ai_interviewer.Base.{
  ℕ, ◌+◌, ◌/◌, Bool, true, false, not, ◌&&◌, ◌||◌, Option, none, some, List, [], ◌∷◌, ◌++◌, ok, err,
  leb, ltb, if◌then◌else◌,
}
use ai_interviewer.Base.Lists.{length}
use ai_interviewer.Base.Rows.{find}
use ai_interviewer.Base.Text.{Text}
use ai_interviewer.Interview.{is_terminal}
use ai_interviewer.Interview.Store.{Store, interview_id, terminate}
use ai_interviewer.Proctor.{EventType, face_frame, event_is, Settings, Thresholds, should_terminate}
use ai_interviewer.Proctor.Collector.{
  RateLimiter, new_limiter, allow, Counters, Row, prime, Observation, record_event,
  parse_event_type,
}

-- the fields of a message that have the types of `ClientEvent`
pub record ClientEvent : Type 0 where
  pub type_name : Text
  pub offset_ms : Option ℕ
  pub payload : Option (List (Text × Text))
  pub s3_key : Option Text

-- what `receive_json` gives; a JSON value whose fields do not have those types is `none`
pub data Message : Type 0 where
  not_json : Message
  json : Option ClientEvent → Message

-- why the server closed the socket: the policy, or an exception in the loop
pub data Closing : Type 0 where
  policy_violation broken : Closing

-- the variables of the loop, what it has sent, the latest first, the rows of `proctoring_events` for the
-- interview, and the tables of the interview service
pub record Socket : Type 0 where
  pub limiter : RateLimiter
  pub counters : Counters
  pub accepted : ℕ
  pub rejected : ℕ
  pub acks : List ℕ
  pub closed : Option Closing
  pub rows : List Row
  pub store : Store

-- `ClientEvent.model_validate`
unfoldable pub model_validate : Option ClientEvent → Option ClientEvent
model_validate none = none
model_validate (some e) =
    let short_key : Bool = elim e.s3_key [ none ↦ true | some key ↦ leb (length key) 512 ] in
    if leb (length e.type_name) 64 && short_key then some e else none

-- `_ack`
unfoldable pub ack : Socket → Socket
ack s = record s { acks = s.accepted ∷ s.acks }

unfoldable pub reject : Socket → Socket
reject s = ack (record s { rejected = s.rejected + 1 })

-- what `record` is called with
unfoldable pub observation : ℕ → EventType → ClientEvent → Observation
observation now t e = record {
  event_type = t;
  at = now;
  offset_ms = e.offset_ms;
  payload = e.payload;
  s3_key = if event_is t face_frame then e.s3_key else none;
  severity = none;
}

-- the transaction, and what follows it; `terminate` may raise, which undoes the row and ends the loop
unfoldable pub observe_event : Thresholds → (interview now : ℕ) → Observation → Socket → Socket
observe_event th k now o s =
    let (counters, row) = record_event th s.counters o in
    let counted = record s { counters = counters } in
    let stored = record counted { rows = s.rows ++ row ∷ []; accepted = s.accepted + 1 } in
    if should_terminate row.severity th
    then elim (terminate (now / 1_000_000) k s.store) [
      | ok w ↦ record (ack (record stored { store = w })) { closed = some policy_violation }
      | err _ ↦ record counted { closed = some broken }
    ]
    else ack stored

-- a message that the limiter lets through
unfoldable pub ingest :
    (upper : Text → Text) → Thresholds → (interview now : ℕ) → Option ClientEvent → Socket → Socket
ingest upper th k now m s = elim (model_validate m) [
  | none ↦ reject s
  | some e ↦ elim (parse_event_type upper (some e.type_name)) [
    | none ↦ reject s
    | some t ↦ observe_event th k now (observation now t e) s
  ]
]

-- one round of the loop
unfoldable pub receive :
    (upper : Text → Text) → Thresholds → (interview now : ℕ) → Message → Socket → Socket
receive upper th k now not_json s = record s { closed = some broken }
receive upper th k now (json m) s =
    let (limiter, allowed) = allow now s.limiter in
    let counted = record s { limiter = limiter } in
    if allowed then ingest upper th k now m counted else reject counted

unfoldable pub serve :
    (upper : Text → Text) → Thresholds → (interview : ℕ) → List (ℕ × Message) → Socket → Socket
serve upper th k [] s = s
serve upper th k ((now, m) ∷ ms) s = elim s.closed [
  | none ↦ serve upper th k ms (receive upper th k now m s)
  | some _ ↦ s
]

-- the socket when it is accepted, for the interview of the token's claims if that verifies; `none` is a socket
-- that is closed before
unfoldable pub open_socket :
    Settings → (claims : Option ℕ) → (now : ℕ) → List Row → Store → Option Socket
open_socket c none now rows w = none
open_socket c (some k) now rows w = elim (find interview_id k w.interviews) [
  | none ↦ none
  | some i ↦
      if is_terminal i.status
      then none
      else some (record {
        limiter = new_limiter 0 c.proctor_events_per_minute now;
        counters = prime rows;
        accepted = 0;
        rejected = 0;
        acks = [];
        closed = none;
        rows = rows;
        store = w;
      })
]

-- the total that the closing line of the log calls `rejected`
unfoldable pub logged_rejected : Socket → ℕ
logged_rejected s = s.rejected + s.limiter.dropped
