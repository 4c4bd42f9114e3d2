-- ===== src/Proctor/Socket/Served.antt =====
-- What a socket has done by the time it is over, whatever it was sent.
use mathlib.Core.List.{append-nil, append_assoc}
use ai_interviewer.Base.{
  ℕ, ◌≡◌, refl, sym, ap, ◌∙◌, ◌⊎◌, inl, inr, none, some, List, [], ◌∷◌, ◌++◌, arith, Bool-cases,
  Option-cases,
}
use ai_interviewer.Base.Text.{Text}
use ai_interviewer.Base.Rows.{find}
use ai_interviewer.Interview.{is_terminal}
use ai_interviewer.Interview.Store.{Store, interview_id}
use ai_interviewer.Proctor.{Settings, Thresholds}
use ai_interviewer.Proctor.Collector.{RateLimiter, Row, Observation, new_limiter, prime}
use ai_interviewer.Proctor.Collector.Ingest.{connection, record_all}
use ai_interviewer.Proctor.Socket.{Message, Closing, Socket, receive, serve, open_socket}
use ai_interviewer.Proctor.Socket.Heard.{nothing}
use ai_interviewer.Proctor.Socket.Rounds.{Kept, Open, Open-Kept, receive-Round}

module _ (upper : Text → Text) (th : Thresholds) (k : ℕ) (rows : List Row) (w : Store)
    (r0 : RateLimiter) where
  -- what is left after a socket has served, and what it came to
  abbrev Served : List (ℕ × Message) → Socket → Type 0
  Served ms s =
      (done : List (ℕ × Message)) × (rest : List (ℕ × Message)) × (done ++ rest ≡ ms)
      × ((rest ≡ []) ⊎ ((c : Closing) × (s.closed ≡ some c)))
      × Kept upper th k rows w r0 done s

  serve-closed :
      (ms : List (ℕ × Message)) (s : Socket) (c : Closing)
      → s.closed ≡ some c
      → serve upper th k ms s ≡ s
  unfolding serve
  serve-closed [] s c e = refl
  serve-closed ((now, m) ∷ ms) s c e = rw e refl

  serve-open :
      (now : ℕ) (m : Message) (ms : List (ℕ × Message)) (s : Socket)
      → s.closed ≡ none
      → serve upper th k ((now, m) ∷ ms) s ≡ serve upper th k ms (receive upper th k now m s)
  unfolding serve
  serve-open now m ms s e =
      ap (λ c. elim c [ none ↦ serve upper th k ms (receive upper th k now m s) | some _ ↦ s ]) e

  serve-Served :
      (before ms : List (ℕ × Message)) (os : List Observation) (s : Socket)
      → Open upper th k rows w r0 before os s.limiter s
      → Served (before ++ ms) (serve upper th k ms s)
  unfolding serve
  serve-Served before [] os s op =
      (before, [], refl, inl refl, Open-Kept upper th k rows w r0 before os s op)
  serve-Served before ((now, m) ∷ ms) os s op =
      let goes = serve-open now m ms s op.running in
      let regroup : (before ++ (now, m) ∷ []) ++ ms ≡ before ++ (now, m) ∷ ms =
        append_assoc before ((now, m) ∷ []) ms in
      elim (receive-Round upper th k rows w r0 before os now m s op) [
        | inl (os', goes_on) ↦
            let (done, rest, all, over, kept) =
              serve-Served (before ++ (now, m) ∷ []) ms os' (receive upper th k now m s) goes_on in
            rw goes (done, rest, all ∙ regroup, over, kept)
        | inr (kept, (c, shut)) ↦
            let same = serve-closed ms (receive upper th k now m s) c shut in
            rw (goes, same) (before ++ (now, m) ∷ [], ms, regroup, inr (c, shut), kept)
      ]

open_socket-Open :
    (upper : Text → Text) (c : Settings) (th : Thresholds) (k t : ℕ) (rows : List Row) (w : Store)
    (s : Socket)
    → open_socket c (some k) t rows w ≡ some s
    → Open upper th k rows w (new_limiter 0 c.proctor_events_per_minute t) [] [] s.limiter s
unfolding open_socket
open_socket-Open upper c th k t rows w s e =
    elim (Option-cases (find interview_id k w.interviews)) [
      | inl none_there ↦ absurd (ground arith)
      | inr (i, there) ↦ elim (Bool-cases (is_terminal i.status)) [
        | inl gone ↦ absurd (ground arith)
        | inr live ↦
            let fresh : Socket = record {
              limiter = new_limiter 0 c.proctor_events_per_minute t;
              counters = prime rows;
              accepted = 0;
              rejected = 0;
              acks = [];
              closed = none;
              rows = rows;
              store = w;
            } in
            let same : fresh ≡ s = ground arith in
            rw (← same) (record {
              heard = nothing;
              same = unfold connection record_all in sym (append-nil rows);
              count = refl;
              acked = refl;
              answered = refl;
              running = refl;
              untouched = refl;
              primed = refl;
            })
      ]
    ]

-- Whatever a browser sends on a socket that was accepted, every message that it handled was dealt with as `Heard`
-- says, in order: over the limit or not a report, it stored nothing; a report was stored, with the type that it
-- names, the time of its receipt and its own offset, payload and (for a camera frame) key, and unless the policy
-- terminates and it is a breach, the loop went on with the interview untouched; such a breach terminated the
-- interview and closed the socket, or, where it could not be terminated, was undone and ended the loop, as
-- a message that is not JSON does. The rows are those of the stored observations, as one connection records them
-- after the rows before; each message but one that ended the loop by an exception was acknowledged, as accepted or as
-- rejected; and those that were not handled came after the end.
pub serve-Kept :
    (upper : Text → Text) (c : Settings) (th : Thresholds) (k t : ℕ) (rows : List Row) (w : Store)
    (s : Socket) (ms : List (ℕ × Message))
    → open_socket c (some k) t rows w ≡ some s
    → (done : List (ℕ × Message)) × (rest : List (ℕ × Message)) × (done ++ rest ≡ ms)
      × ((rest ≡ []) ⊎ ((end : Closing) × ((serve upper th k ms s).closed ≡ some end)))
      × Kept upper th k rows w
          (new_limiter 0 c.proctor_events_per_minute t)
          done
          (serve upper th k ms s)
serve-Kept upper c th k t rows w s ms opened =
    serve-Served upper th k rows w (new_limiter 0 c.proctor_events_per_minute t) [] ms [] s
      (open_socket-Open upper c th k t rows w s opened)
