-- ===== src/Proctor/Socket/Rounds.antt =====
-- A socket through one round of its loop.
use ai_interviewer.Base.{
  ℕ, ◌+◌, ◌/◌, ◌≡◌, refl, sym, ap, ◌∙◌, ◌⊎◌, inl, inr, true, Option, none, some, List, [], ◌∷◌,
  ◌++◌, arith, Bool-cases, Option-cases, Result-cases,
}
use ai_interviewer.Base.Lists.{length, length-append}
use ai_interviewer.Base.Text.{Text}
use ai_interviewer.Interview.Store.{Store, terminate}
use ai_interviewer.Proctor.{Thresholds, should_terminate}
use ai_interviewer.Proctor.Collector.{
  RateLimiter, Row, Observation, allow, prime, record_event, parse_event_type,
}
use ai_interviewer.Proctor.Collector.Ingest.{
  connection, connection-connection, prime-snoc, record_all,
}
use ai_interviewer.Proctor.Socket.{
  ClientEvent, Message, not_json, json, Closing, policy_violation, broken, Socket, model_validate,
  ack, reject, observation, observe_event, ingest, receive,
}
use ai_interviewer.Proctor.Socket.Heard.{
  Breach, Heard, Reports, limited, refused, stored, breached, undone, garbled,
  Breach-should_terminate, calm-should_terminate,
}
use ai_interviewer.Proctor.Socket.Reported.{unfit, unknown, reported}

-- 1 for a message that ended the loop without an acknowledgement
abbrev unanswered : Option Closing → ℕ
unanswered (some broken) = 1
unanswered _ = 0

-- A socket that has handled the messages `done`, from the rows, tables and limiter that it was opened on.
pub record Kept (upper : Text → Text) (th : Thresholds) (k : ℕ) (rows : List Row) (w : Store)
    (r0 : RateLimiter) (done : List (ℕ × Message)) (s : Socket) : Type 0 where
  pub observed :
      (os : List Observation) × Heard upper th k rows w r0 done os s.limiter s.closed s.store
      × (s.rows ≡ connection th rows os)
      × (length os ≡ s.accepted)
  pub acked : length s.acks ≡ s.accepted + s.rejected
  pub handled : s.accepted + s.rejected + unanswered s.closed ≡ length done

-- The row of one more observation is that of a longer connection.
connection-snoc :
    (th : Thresholds) (rows : List Row) (os : List Observation) (o : Observation)
    → connection th rows os ++ (record_event th (prime (connection th rows os)) o).1 ∷ []
      ≡ connection th rows (os ++ o ∷ [])
connection-snoc th rows os o =
    let one : connection th (connection th rows os) (o ∷ [])
        ≡ connection th rows os ++ (record_event th (prime (connection th rows os)) o).1 ∷ [] =
      unfold connection record_all in refl in
    sym one ∙ connection-connection th rows os (o ∷ [])

module _ (upper : Text → Text) (th : Thresholds) (k : ℕ) (rows : List Row) (w : Store)
    (r0 : RateLimiter) where
  abbrev Before : List (ℕ × Message) → List Observation → RateLimiter → Type 0
  Before done os r = Heard upper th k rows w r0 done os r none w

  -- a socket in its loop, with the observations that it has stored; `r` is the limiter when the message before was
  -- handled
  pub record Open (done : List (ℕ × Message)) (os : List Observation) (r : RateLimiter) (s : Socket)
      : Type 0 where
    pub heard : Before done os r
    pub same : s.rows ≡ connection th rows os
    pub count : length os ≡ s.accepted
    pub acked : length s.acks ≡ s.accepted + s.rejected
    pub answered : s.accepted + s.rejected ≡ length done
    pub running : s.closed ≡ none
    pub untouched : s.store ≡ w
    pub primed : s.counters ≡ prime s.rows

  -- after a round: still in its loop, or closed
  abbrev Round : List (ℕ × Message) → Socket → Type 0
  Round done s =
      ((os : List Observation) × Open done os s.limiter s)
      ⊎ (Kept upper th k rows w r0 done s × ((c : Closing) × (s.closed ≡ some c)))

  pub Open-Kept :
      (done : List (ℕ × Message)) (os : List Observation) (s : Socket)
      → Open done os s.limiter s
      → Kept upper th k rows w r0 done s
  Open-Kept done os s op =
      let handled : s.accepted + s.rejected + unanswered s.closed ≡ length done =
        rw op.running (omega (arith, op.answered)) in
      record {
        observed = (os, rw (op.running, op.untouched) op.heard, op.same, op.count);
        acked = op.acked;
        handled = handled;
      }

  -- one message more
  one_more :
      (done : List (ℕ × Message)) (m : ℕ × Message) → length (done ++ m ∷ []) ≡ length done + 1
  one_more done m = length-append done (m ∷ []) ∙ omega arith

  reject-Round :
      (done : List (ℕ × Message)) (m : ℕ × Message) (os : List Observation) (r : RateLimiter)
      (s : Socket)
      → Open done os r s
      → Before (done ++ m ∷ []) os s.limiter
      → Round (done ++ m ∷ []) (reject s)
  unfolding reject ack
  reject-Round done m os r s op after =
      let longer = one_more done m in
      inl (
        os,
        record {
          heard = after;
          same = op.same;
          count = op.count;
          acked = omega (arith, op.acked);
          answered = omega (arith, op.answered, longer);
          running = op.running;
          untouched = op.untouched;
          primed = op.primed;
        },
      )

  observe-Round :
      (done : List (ℕ × Message)) (os : List Observation) (r : RateLimiter) (now : ℕ)
      (e : ClientEvent) (o : Observation) (s : Socket)
      → Open done os r s
      → s.limiter ≡ (allow now r).0
      → (allow now r).1 ≡ true
      → Reports upper now e o
      → Round (done ++ (now, json (some e)) ∷ []) (observe_event th k now o s)
  unfolding observe_event ack
  observe-Round done os r now e o s op limiter through reports =
      let longer = one_more done (now, json (some e)) in
      let row = (record_event th s.counters o).1 in
      let counters : s.counters ≡ prime (connection th rows os) = op.primed ∙ ap prime op.same in
      let snoc : s.rows ++ row ∷ [] ≡ connection th rows (os ++ o ∷ []) =
        rw (counters, op.same) (connection-snoc th rows os o) in
      let count : length (os ++ o ∷ []) ≡ s.accepted + 1 =
        length-append os (o ∷ []) ∙ omega (arith, op.count) in
      elim (Bool-cases (should_terminate row.severity th)) [
        | inr calm ↦
            let quiet : ¬ Breach th (record_event th (prime (connection th rows os)) o).1.severity =
              rw (← counters) (calm-should_terminate row.severity th calm) in
            rw calm (
              inl (
                os ++ o ∷ [],
                record {
                  heard = rw limiter (stored done os r now e o op.heard through reports quiet);
                  same = snoc;
                  count = count;
                  acked = omega (arith, op.acked);
                  answered = omega (arith, op.answered, longer);
                  running = op.running;
                  untouched = op.untouched;
                  primed =
                      ap (λ c. (record_event th c o).0) op.primed
                      ∙ prime-snoc th s.rows o
                      ∙ ap (λ c. prime (s.rows ++ (record_event th c o).1 ∷ [])) (sym op.primed);
                },
              ))
        | inl breach ↦
            let severe : Breach th (record_event th (prime (connection th rows os)) o).1.severity =
              rw (← counters) (Breach-should_terminate row.severity th breach) in
            elim (Result-cases (terminate (now / 1_000_000) k s.store)) [
              | inl (v, done') ↦
                  rw (breach, done')
                    (inr (
                      record {
                        observed = (
                          os ++ o ∷ [],
                          rw limiter (
                              breached done os r now e o v op.heard through reports severe
                                (rw op.untouched at done')),
                          snoc,
                          count,
                        );
                        acked = omega (arith, op.acked);
                        handled = omega (arith, op.answered, longer);
                      },
                      (policy_violation, refl),
                    ))
              | inr (x, raised) ↦
                  let raised' = rw op.untouched at raised in
                  rw (breach, raised)
                    (inr (
                      record {
                        observed = (
                          os,
                          rw (limiter, op.untouched)
                              (undone done os r now e o op.heard through reports severe
                                (λ v done'. absurd (ground arith))),
                          op.same,
                          op.count,
                        );
                        acked = op.acked;
                        handled = omega (arith, op.answered, longer);
                      },
                      (broken, refl),
                    ))
            ]
      ]

  ingest-Round :
      (done : List (ℕ × Message)) (os : List Observation) (r : RateLimiter) (now : ℕ)
      (m : Option ClientEvent) (s : Socket)
      → Open done os r s
      → s.limiter ≡ (allow now r).0
      → (allow now r).1 ≡ true
      → Round (done ++ (now, json m) ∷ []) (ingest upper th k now m s)
  unfolding ingest
  ingest-Round done os r now m s op limiter through = elim (Option-cases (model_validate m)) [
    | inl e ↦
        rw (ingest, e)
          (reject-Round done (now, json m) os r s op
            (rw limiter (refused done os r now m op.heard through (unfit upper now m e))))
    | inr (event, e) ↦ elim (Option-cases (parse_event_type upper (some event.type_name))) [
      | inl f ↦
          rw (ingest, e, f)
            (reject-Round done (now, json m) os r s op
              (rw limiter
                (refused done os r now m op.heard through (unknown upper now m event e f))))
      | inr (t, f) ↦
          let (own, reports) = reported upper now m event t e f in
          rw (ingest, e, f, own)
            (observe-Round done os r now event (observation now t event) s op limiter through
              reports)
    ]
  ]

  pub receive-Round :
      (done : List (ℕ × Message)) (os : List Observation) (now : ℕ) (m : Message) (s : Socket)
      → Open done os s.limiter s
      → Round (done ++ (now, m) ∷ []) (receive upper th k now m s)
  unfolding receive
  receive-Round done os now not_json s op =
      let longer = one_more done (now, not_json) in
      inr (
        record {
          observed =
              (os, rw op.untouched (garbled done os s.limiter now op.heard), op.same, op.count);
          acked = op.acked;
          handled = omega (arith, op.answered, longer);
        },
        (broken, refl),
      )
  receive-Round done os now (json m) s op =
      let counted = record s { limiter = (allow now s.limiter).0 } in
      let open' : Open done os s.limiter counted = record {
        heard = op.heard;
        same = op.same;
        count = op.count;
        acked = op.acked;
        answered = op.answered;
        running = op.running;
        untouched = op.untouched;
        primed = op.primed;
      } in
      elim (Bool-cases (allow now s.limiter).1) [
        | inl through ↦ rw through (ingest-Round done os s.limiter now m counted open' refl through)
        | inr over ↦ rw over (
            reject-Round done (now, json m) os s.limiter counted open'
              (limited done os s.limiter now m op.heard over))
      ]
