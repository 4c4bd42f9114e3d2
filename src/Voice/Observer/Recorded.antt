-- ===== src/Voice/Observer/Recorded.antt =====
-- The turns that the observer publishes, and `record_turn` on them.
use ai_interviewer.Base.{
  ℕ, ◌+◌, ◌≤◌, ◌<◌, ◌≡◌, refl, ◌∙◌, false, Option, none, some, List, [], ◌∷◌, arith, Result, ok,
  ◌>>=◌, inl, inr, ◌⊎◌, or_else, Bool-cases, ltb,
}
use ai_interviewer.Base.Lists.{All, is_empty}
use ai_interviewer.Base.Rows.{find}
use ai_interviewer.Base.Text.{Text, codes, strip}
use ai_interviewer.Transcript.{
  Turn, TurnCompleted, IntegrityError, turn_key, max, new_turn, record_turn, upsert, written,
  misordered, next_ordinal,
}
use ai_interviewer.Transcript.Turns.{
  new_turn-ordinal, find-upsert, find-upsert_ne, next_ordinal-fresh,
}
use ai_interviewer.Voice.Observer.{
  Push, Content, TranscriptObserver, SpokenWord, transcription, tts_text, bot_stopped_speaking,
  another, emit, report_voice_signals, flush_bot_turn, first_sighting, sighted, on_content,
  on_push_frame, observe, offset_ms, join_parts, new_observer,
}

-- the turns, the latest first, count up from `start` to below `next`; each has a text, and ends no earlier
-- than it starts
abbrev pub Numbered : ℕ → List TurnCompleted → ℕ → Type 0
Numbered start [] next = next ≡ start
Numbered start (e ∷ es) next =
    (next ≡ e.ordinal + 1)
    × (is_empty e.content ≡ false)
    × (e.started_offset_ms ≤ e.ended_offset_ms)
    × Numbered start es e.ordinal

abbrev Counted : ℕ → TranscriptObserver → Type 0
Counted start o = Numbered start o.turns o.ordinal

emit-Counted :
    (start : ℕ) (speaker content : Text) (a b : ℕ) (o : TranscriptObserver)
    → Counted start o
    → Counted start (emit speaker content a b o)
unfolding emit
emit-Counted start speaker content a b o w = elim (Bool-cases (is_empty (strip content))) [
  | inl e ↦ rw e w
  | inr e ↦ rw e (refl, e, ground arith, w)
]

report_voice_signals-Counted :
    (start : ℕ) (words : List SpokenWord) (now : ℕ) (o : TranscriptObserver)
    → Counted start o
    → Counted start (report_voice_signals words now o)
unfolding report_voice_signals
report_voice_signals-Counted start words now o w =
    let turns : (report_voice_signals words now o).turns ≡ o.turns = ground arith in
    let ordinal : (report_voice_signals words now o).ordinal ≡ o.ordinal = ground arith in
    rw (turns, ordinal) w

on_content-Counted :
    (start : ℕ) (c : Content) (now : ℕ) (o : TranscriptObserver)
    → Counted start o
    → Counted start (on_content c now o)
unfolding on_content flush_bot_turn
on_content-Counted start (transcription text words) now o w =
    report_voice_signals-Counted start words (offset_ms now o) _
      (emit-Counted start (codes "candidate") text (offset_ms now o) (offset_ms now o) o w)
on_content-Counted start (tts_text text) now o w = w
on_content-Counted start bot_stopped_speaking now o w = elim (Bool-cases (is_empty o.bot_parts)) [
  | inl e ↦ rw e w
  | inr e ↦ rw e (
      emit-Counted start (codes "interviewer") (join_parts o.bot_parts)
        (or_else o.bot_started_ms (offset_ms now o)) (offset_ms now o)
        (record o { bot_parts = []; bot_started_ms = none }) w)
]
on_content-Counted start another now o w = w

sighted-Counted :
    (start : ℕ) (id : Option ℕ) (o : TranscriptObserver)
    → Counted start o
    → Counted start (sighted id o)
sighted-Counted start none o w = w
sighted-Counted start (some n) o w = w

on_push_frame-Counted :
    (start : ℕ) (p : Push) (o : TranscriptObserver)
    → Counted start o
    → Counted start (on_push_frame p o)
unfolding on_push_frame
on_push_frame-Counted start (frame, now) o w = elim (Bool-cases (first_sighting frame.id o)) [
  | inl e ↦ rw e (
      on_content-Counted start frame.content now (sighted frame.id o)
        (sighted-Counted start frame.id o w))
  | inr e ↦ rw e w
]

observe-Counted :
    (start : ℕ) (ps : List Push) (o : TranscriptObserver)
    → Counted start o
    → Counted start (observe ps o)
unfolding observe
observe-Counted start [] o w = w
observe-Counted start (p ∷ ps) o w =
    observe-Counted start ps (on_push_frame p o) (on_push_frame-Counted start p o w)

-- `record_turn` of every turn, in the order in which they were published
unfoldable pub record_all :
    (Text → Text) → List TurnCompleted → List Turn → Result IntegrityError (List Turn)
record_all upper [] ts = ok ts
record_all upper (e ∷ es) ts = record_all upper es ts >>= record_turn upper e

-- the transcript after it, and what it says of the one before
record Taken (upper : Text → Text) (start : ℕ) (es : List TurnCompleted) (next : ℕ) (ts : List Turn)
    : Type 0 where
  after : List Turn
  recorded : record_all upper es ts ≡ ok after
  there : All (λ e. find turn_key e.ordinal after ≡ some (new_turn upper e)) es
  free : (k : ℕ) → next ≤ k → find turn_key k after ≡ none
  kept : (k : ℕ) → k < start → find turn_key k after ≡ find turn_key k ts

Numbered-le : (start next : ℕ) (es : List TurnCompleted) → Numbered start es next → start ≤ next
Numbered-le start next [] n = omega arith
Numbered-le start next (e ∷ es) n = omega (arith, Numbered-le start e.ordinal es n.3)

-- turns that were there stay, under a new one with a higher number
there-upsert :
    (upper : Text → Text) (start next : ℕ) (new : Turn) (es : List TurnCompleted) (ts : List Turn)
    → Numbered start es next
    → next ≤ new.ordinal
    → All (λ e. find turn_key e.ordinal ts ≡ some (new_turn upper e)) es
    → All (λ e. find turn_key e.ordinal (upsert new ts) ≡ some (new_turn upper e)) es
there-upsert upper start next new [] ts n le all = tt
there-upsert upper start next new (e ∷ es) ts n le (here, all) = (
  find-upsert_ne e.ordinal new ts (ground arith) ∙ here,
  there-upsert upper start e.ordinal new es ts n.3 (omega arith) all,
)

record_turn-fresh :
    (upper : Text → Text) (e : TurnCompleted) (ts : List Turn)
    → find turn_key e.ordinal ts ≡ none
    → record_turn upper e ts ≡ ok (upsert (new_turn upper e) ts)
unfolding record_turn written misordered new_turn
record_turn-fresh upper e ts h =
    let fits : ltb (max e.ended_offset_ms e.started_offset_ms) e.started_offset_ms ≡ false =
      ground arith in
    rw (written, h, fits) refl

found-fresh :
    (upper : Text → Text) (e : TurnCompleted) (ts : List Turn)
    → find turn_key e.ordinal ts ≡ none
    → find turn_key e.ordinal (upsert (new_turn upper e) ts) ≡ some (new_turn upper e)
unfolding written new_turn
found-fresh upper e ts h = find-upsert (new_turn upper e) ts ∙ rw (written, h) refl

record_all-Taken :
    (upper : Text → Text) (start next : ℕ) (es : List TurnCompleted) (ts : List Turn)
    → Numbered start es next
    → next_ordinal ts ≤ start
    → Taken upper start es next ts
unfolding record_all
record_all-Taken upper start next [] ts n le = record {
  after = ts;
  recorded = refl;
  there = tt;
  free = λ k h. next_ordinal-fresh ts k (omega arith);
  kept = λ k _. refl;
}
record_all-Taken upper start next (e ∷ es) ts n le =
    let w = record_all-Taken upper start e.ordinal es ts n.3 le in
    let new = new_turn upper e in
    let number = new_turn-ordinal upper e in
    record {
      after = upsert new w.after;
      recorded = rw w.recorded (record_turn-fresh upper e w.after (w.free e.ordinal (omega arith)));
      there = (
        found-fresh upper e w.after (w.free e.ordinal (omega arith)),
        there-upsert upper start e.ordinal new es w.after n.3 (omega (arith, number)) w.there,
      );
      free = λ k h. find-upsert_ne k new w.after (ground (arith, number)) ∙ w.free k (omega arith);
      kept = λ k h.
          find-upsert_ne k new w.after (ground (arith, number, Numbered-le start e.ordinal es n.3))
          ∙ w.kept k h;
    }

-- However a session is heard, the turns that its observer publishes count up from where the session resumed,
-- and none is empty or ends before it starts. Where that number is no lower than the next ordinal of the
-- transcript, the transcript takes every one when they are recorded: no call raises, each turn is there as it was
-- published, and the turns with numbers from before the session are kept.
pub observed-recorded :
    (upper : Text → Text) (start t0 : ℕ) (ps : List Push) (ts : List Turn)
    → next_ordinal ts ≤ start
    → Numbered start
        (observe ps (new_observer start t0)).turns
        (observe ps (new_observer start t0)).ordinal
      × ((after : List Turn) × (record_all upper (observe ps (new_observer start t0)).turns ts
            ≡ ok after)
          × All
              (λ e. find turn_key e.ordinal after ≡ some (new_turn upper e))
              (observe ps (new_observer start t0)).turns
          × ((k : ℕ) → (start ≤ k) ⊎ (find turn_key k after ≡ find turn_key k ts)))
unfolding new_observer
observed-recorded upper start t0 ps ts le =
    let o = observe ps (new_observer start t0) in
    let counted = observe-Counted start ps (new_observer start t0) refl in
    let w = record_all-Taken upper start o.ordinal o.turns ts counted le in
    let kept : (k : ℕ) → (start ≤ k) ⊎ (find turn_key k w.after ≡ find turn_key k ts) = λ k.
      elim (Bool-cases (ltb k start)) [
        | inl below ↦ inr (w.kept k (ground arith))
        | inr above ↦ inl (ground arith)
      ] in
    (counted, (w.after, w.recorded, w.there, kept))
