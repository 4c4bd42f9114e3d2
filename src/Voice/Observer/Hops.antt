-- ===== src/Voice/Observer/Hops.antt =====
-- Hops of frames against the frames themselves.
use ai_interviewer.Base.{
  ℕ, ◌≤◌, ◌<◌, ◌≡◌, refl, ◌∙◌, ap, true, false, none, some, List, [], ◌∷◌, arith, leb, ◌⊎◌, inl,
  inr, or_else, Bool-cases,
}
use ai_interviewer.Base.Lists.{All, is_empty}
use ai_interviewer.Base.Text.{Text, codes, strip}
use ai_interviewer.Voice.Observer.{
  Push, Content, TranscriptObserver, SpokenWord, transcription, tts_text, bot_stopped_speaking,
  another, emit, report_voice_signals, flush_bot_turn, offset_ms, join_parts, new_observer,
  first_sighting, sighted, on_content, on_push_frame, observe,
}

abbrev pub IsIn : ℕ → List ℕ → Type 0
IsIn n [] = ⊥
IsIn n (m ∷ ms) = (n ≡ m) ⊎ IsIn n ms

-- `hops` are the calls for `frames`: each frame comes for the first time in the order of its number, and after
-- that as often and whenever it hops on. `seen` are the numbers of the frames that came before, the latest first.
pub data Hops : List ℕ → List Push → List Push → Type 0 where
  over : (seen : List ℕ) → Hops seen [] []
  first :
      (seen : List ℕ) (n now : ℕ) (c : Content) (frames hops : List Push)
      → All (λ m. m < n) seen
      → Hops (n ∷ seen) frames hops
      → Hops seen
          ((record { id = some n; content = c }, now) ∷ frames)
          ((record { id = some n; content = c }, now) ∷ hops)
  again :
      (seen : List ℕ) (n now : ℕ) (c : Content) (frames hops : List Push)
      → IsIn n seen
      → Hops seen frames hops
      → Hops seen frames ((record { id = some n; content = c }, now) ∷ hops)

-- the latest of the frames that came before has the highest number, which the observer keeps
abbrev Heard : List ℕ → TranscriptObserver → Type 0
Heard [] o = o.last_frame_id ≡ none
Heard (n ∷ seen) o = (o.last_frame_id ≡ some n) × All (λ m. m < n) seen

IsIn-le : (n k : ℕ) (ms : List ℕ) → All (λ m. m < k) ms → IsIn n ms → n < k
IsIn-le n k [] all h = elim h [ ]
IsIn-le n k (m ∷ ms) all (inl e) = rw e all.0
IsIn-le n k (m ∷ ms) all (inr h) = IsIn-le n k ms all.1 h

-- what a frame says does not touch the number that is kept
emit-last :
    (speaker content : Text) (a b : ℕ) (o : TranscriptObserver)
    → (emit speaker content a b o).last_frame_id ≡ o.last_frame_id
unfolding emit
emit-last speaker content a b o = elim (Bool-cases (is_empty (strip content))) [
  | inl e ↦ rw e refl
  | inr e ↦ rw e refl
]

report_voice_signals-last :
    (words : List SpokenWord) (now : ℕ) (o : TranscriptObserver)
    → (report_voice_signals words now o).last_frame_id ≡ o.last_frame_id
unfolding report_voice_signals
report_voice_signals-last words now o = ground arith

on_content-last :
    (c : Content) (now : ℕ) (o : TranscriptObserver)
    → (on_content c now o).last_frame_id ≡ o.last_frame_id
unfolding on_content flush_bot_turn
on_content-last (transcription text words) now o =
    report_voice_signals-last words (offset_ms now o)
      (emit (codes "candidate") text (offset_ms now o) (offset_ms now o) o)
    ∙ emit-last (codes "candidate") text (offset_ms now o) (offset_ms now o) o
on_content-last (tts_text text) now o = refl
on_content-last bot_stopped_speaking now o = elim (Bool-cases (is_empty o.bot_parts)) [
  | inl e ↦ rw e refl
  | inr e ↦ rw e (
      emit-last (codes "interviewer") (join_parts o.bot_parts)
        (or_else o.bot_started_ms (offset_ms now o)) (offset_ms now o)
        (record o { bot_parts = []; bot_started_ms = none }))
]
on_content-last another now o = refl

-- a frame that was heard before changes nothing
again-same :
    (seen : List ℕ) (n now : ℕ) (c : Content) (o : TranscriptObserver)
    → Heard seen o
    → IsIn n seen
    → on_push_frame (record { id = some n; content = c }, now) o ≡ o
unfolding on_push_frame first_sighting
again-same [] n now c o h i = elim i [ ]
again-same (m ∷ seen) n now c o (last, below) i =
    let le : n ≤ m = elim i [
      | inl e ↦ ground arith
      | inr j ↦ omega (arith, IsIn-le n m seen below j)
    ] in
    let old : leb n m ≡ true = ground arith in rw (first_sighting, last, old) refl

first-Heard :
    (seen : List ℕ) (n now : ℕ) (c : Content) (o : TranscriptObserver)
    → Heard seen o
    → All (λ m. m < n) seen
    → (on_push_frame (record { id = some n; content = c }, now) o).last_frame_id ≡ some n
unfolding on_push_frame first_sighting
first-Heard [] n now c o h below =
    rw (first_sighting, h) (on_content-last c now (sighted (some n) o))
first-Heard (m ∷ seen) n now c o (last, _) (lt, _) =
    let new : leb n m ≡ false = ground arith in
    rw (first_sighting, last, new) (on_content-last c now (sighted (some n) o))

observe-Hops :
    {seen : List ℕ} {frames hops : List Push} (o : TranscriptObserver)
    → Hops seen frames hops
    → Heard seen o
    → observe hops o ≡ observe frames o
unfolding observe
observe-Hops o (over seen) h = refl
observe-Hops o (first seen n now c frames hops below rest) h =
    observe-Hops (on_push_frame (record { id = some n; content = c }, now) o) rest
      (first-Heard seen n now c o h below, below)
observe-Hops o (again seen n now c frames hops i rest) h =
    ap (observe hops) (again-same seen n now c o h i) ∙ observe-Hops o rest h

-- Where each frame is first pushed in the order of the frames' numbers, a new observer that is called for
-- every hop publishes the same turns and signals, and ends the same, as one that is called once for each frame.
pub each_frame_once :
    (start_ordinal t0 : ℕ) (frames hops : List Push)
    → Hops [] frames hops
    → observe hops (new_observer start_ordinal t0) ≡ observe frames (new_observer start_ordinal t0)
unfolding new_observer
each_frame_once start_ordinal t0 frames hops h = observe-Hops (new_observer start_ordinal t0) h refl
