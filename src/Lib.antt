-- ===== src/Lib.antt =====
-- The interview platform's core, verified.
--
-- The program runs voice interviews. A recruiter invites a candidate by a link (auth/invites), who
-- redeems it for a session; the session manager runs the live call, whose observer numbers the turns, and
-- the bus reports the start and the end of the session to the interview
-- service, which moves the interview along its status machine, freezes the question plan and, when
-- the interview ends, hands it to the chain of tasks that corrects the transcript, scores it and
-- computes the proctoring verdict.
--
-- Parts, with paths below app/modules unless they start with app/:
--   Interview          interview/state_machine.py: `transition`, `can_transition`, `is_terminal`.
--   Interview/Store    interview/service.py: `start`, `finish`, `terminate`, `expire_stale`, the
--                      handler of the end of a session. Rows of the interview and plan tables and
--                      the interviews handed to `pipeline.enqueue` are the state.
--   Interview/Graph, Rows, Ending, Once, Unsent   the moves as a relation, and what follows of any delivery.
--   Plan, Plan/Edits   question_plan/service.py over the tables of app/models/question_plan.py.
--   Plan/Generator     question_plan/generator.py: the validators of `GeneratedPlan`.
--   Plan/Rounding      the two roundings of `Decimal.quantize` that the program uses.
--   Plan/Sound, Frozen what every edit keeps.
--   Proctor            proctoring/rules.py. Proctor/Collector: collector.py. Proctor/Verdict:
--                      verdict.py. Proctor/Signals: voice_signals.py and vision.py. Proctor/Socket: the
--                      event socket of app/api/v1/proctoring.py, which composes them; Socket/Heard:
--                      what each message has to come to. Proctor/Vision:
--                      the pass over the stills in app/workers/tasks/proctoring_tasks.py.
--   Scoring            scoring/aggregator.py. Scoring/Evidence: rubric_scorer.py. Scoring/Run:
--                      app/workers/tasks/scoring_tasks.py (`_score`) with scoring/service.py.
--   Transcript         interview/transcript.py and scoring/transcript_pass.py, which share the turns.
--   Resume/Chunker     resume/chunker.py.
--   Auth/Tokens        auth/tokens.py with its Lua script. Auth/Sessions: auth/service.py.
--   Auth/Invites       auth/invites.py.
--   Voice              voice/session_manager.py with interview/checkpoint.py: each operation cut at its
--                      awaits. Voice/Steps: the interleavings. Voice/Sound, Change, Changes, Ends:
--                      what holds in any of them. Voice/Silence, Halting, Late, Rejoin, Resumed,
--                      Overlap: particular ones.
--   Voice/Observer     voice/observers.py, from the frames to the turns that the transcript records.
--   Plan/Grounding     question_plan/generator.py: `generate`, the check against the resume and
--                      `_trim_overlong_rubric`; `complete_structured` of app/integrations/nim_client.py.
--   Users              users/service.py. Users/Edited, Admins, Skew: calls in sequence, and two that overlap.
--   Access             app/core/security.py: tokens. Access/Callers: app/core/dependencies.py, for callers,
--                      roles and the rate limit.
--   Bus                app/core/events.py: `EventBus`. Bus/Delivery: what it promises.
--   Base               names of the libraries, results, rows, text. Scenarios: concrete runs.
--
-- Conventions. An identity, a time and a count are native numbers, and a time is in seconds but in the
-- rate limiter of the proctoring socket, where it is in microseconds, and in Voice, where it is in
-- milliseconds. A weight is in ten-thousandths and a score in hundredths,
-- the scales of the columns. A text is the list of its code points. A call that raises is an `err`
-- without a new state, since the session it runs on is rolled back; Redis, which is not, has its state
-- returned beside the result. A job of two transactions
-- returns the table as it was last committed. The constraints of the tables are results of the calls that write. Case
-- mapping, password hashing, regular expressions and their classes of characters and the replies of the
-- models are arguments; the libraries that sign and decode tokens are the record `Jwt`, with the laws
-- that are asked of them in `Access.Sealed.Lawful`. Concurrent requests are sequences of the atomic calls they make.
--
-- Every function is structurally recursive, so there is no fuel. The division of exact decimals is that
-- of natural numbers: the 28 digits that the context carries decide no rounding at these scales. The
-- normalisation of weights is for at most 99 criteria, where the program allows 6.
--
-- Not modelled: the media pipeline, parsing and retrieval of resumes, reports,
-- the routes of the HTTP layer, broker and storage; SQL is modelled by what its statements do to the rows that the session sees.
pub mod Auth
pub mod Base
pub mod Bus
pub mod Interview
pub mod Plan
pub mod Proctor
pub mod Resume
pub mod Scenarios
pub mod Scoring
pub mod Transcript
pub mod Voice
pub mod Users
pub mod Access
