-- ===== src/Voice/Observer/Stale.antt =====
-- A session that resumes from a snapshot that lags behind the transcript: it is written every two
-- seconds, and not at the end of a session.
use ai_interviewer.Base.{
  ℕ, ◌≡◌, ◌≢◌, refl, sym, ◌∙◌, ap, false, some, List, [], ◌∷◌, arith, ok, if◌then◌else◌,
}
use ai_interviewer.Base.Rows.{find}
use ai_interviewer.Base.Text.{Text, strip}
use ai_interviewer.Transcript.{
  Turn, TurnCompleted, turn_key, new_turn, merge_turn, record_turn, written,
}
use ai_interviewer.Transcript.Turns.{new_turn-ordinal, find-upsert, record_turn-ok}
use ai_interviewer.Voice.{Checkpoint, resume_position}
use ai_interviewer.Voice.Observer.{emit, new_observer}

-- Where the snapshot's next ordinal is that of a turn of the transcript that is not final, the first turn of
-- the session that resumes is recorded in its place: the turn that was there has the new text.
pub stale_snapshot_overwrites :
    (upper : Text → Text) (saved : Checkpoint) (persisted t0 a b : ℕ) (speaker content : Text)
    (e : TurnCompleted) (t : Turn) (ts after : List Turn)
    → saved.next_ordinal ≢ 0
    → find turn_key saved.next_ordinal ts ≡ some t
    → t.is_final ≡ false
    → (emit speaker content a b (new_observer (resume_position (some saved) persisted).0 t0)).turns
      ≡ e ∷ []
    → record_turn upper e ts ≡ ok after
    → (u : Turn) × (find turn_key saved.next_ordinal after ≡ some u) × (u.content ≡ strip content)
unfolding emit new_observer resume_position strip new_turn merge_turn
stale_snapshot_overwrites upper saved persisted t0 a b speaker content e t ts after used there
      open_still said done =
    let number : e.ordinal ≡ saved.next_ordinal = ground arith in
    let text : e.content ≡ strip content = ground arith in
    let new = new_turn upper e in
    let (_, same) = record_turn-ok upper e ts after done in
    let at_new : find turn_key new.ordinal ts ≡ some t =
      ap (λ n. find turn_key n ts) (new_turn-ordinal upper e ∙ number) ∙ there in
    (
      merge_turn t new,
      ap (λ n. find turn_key n after) (sym (new_turn-ordinal upper e ∙ number))
          ∙ ap (λ l. find turn_key new.ordinal l) same
          ∙ find-upsert new ts
          ∙ (unfold written in rw (written, at_new) refl),
      ap
            (λ f.
              (if f then t else record t {
                content = new.content;
                ended_offset_ms = new.ended_offset_ms;
                question_ordinal = new.question_ordinal;
              }).content)
            (open_still)
          ∙ text,
    )
