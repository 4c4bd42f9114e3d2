-- ===== src/Voice/Sound.antt =====
-- The invariant of the session manager: its sessions, its registry and its events.
use ai_interviewer.Base.{
  ℕ, ◌+◌, ◌≤◌, ◌≡◌, refl, sym, ◌∙◌, ap, Bool, true, false, not, ◌&&◌, none, some, List, [], ◌∷◌,
  arith, ◌==◌, if◌then◌else◌, Bool-cases, inl, inr, eq_refl, eqb→eq,
}
use ai_interviewer.Base.Dict.{get, put, pop, get-put, get-pop}
use ai_interviewer.Base.Rows.{find, replace, find-key, find-replace_self, find-replace_ne}
use ai_interviewer.Base.Text.{text_eq}
use ai_interviewer.Voice.{
  VoiceSession, Manager, BusEvent, session_started, session_ended, uploading, over, superseded,
  session_key, is_running, is_uploading,
}

-- the session of that interview is over, and was not superseded
abbrev pub has_ended : ℕ → VoiceSession → Bool
has_ended k s =
    (s.interview_id == k)
    && (not (is_running s.phase)
        && (not (is_uploading s.phase) && not (text_eq s.reason superseded)))

abbrev pub ones : Bool → ℕ
ones b = if b then 1 else 0

abbrev pub sessions_over : ℕ → List VoiceSession → ℕ
sessions_over k [] = 0
sessions_over k (s ∷ objects) = ones (has_ended k s) + sessions_over k objects

abbrev pub is_end_of : ℕ → BusEvent → Bool
is_end_of k (session_started _ _ _) = false
is_end_of k (session_ended _ j _ _) = j == k

abbrev pub ends_published : ℕ → List BusEvent → ℕ
ends_published k [] = 0
ends_published k (e ∷ es) = ones (is_end_of k e) + ends_published k es

sessions_over-replace :
    (k : ℕ) (s s' : VoiceSession) (objects : List VoiceSession)
    → find session_key s'.id objects ≡ some s
    → sessions_over k (replace session_key s' objects) + ones (has_ended k s)
      ≡ sessions_over k objects + ones (has_ended k s')
unfolding find replace
sessions_over-replace k s s' [] h = cc
sessions_over-replace k s s' (x ∷ objects) h = elim (Bool-cases (x.id == s'.id)) [
  | inl e ↦ let same : x ≡ s = ground arith in rw (e, same) (omega arith)
  | inr e ↦ rw e (omega (arith, sessions_over-replace k s s' objects (ground arith)))
]

-- what the manager keeps: a session that is registered runs, and each end was published
pub record Sound (objects : List VoiceSession) (sessions : List (ℕ × ℕ)) (published : List BusEvent)
    : Type 0 where
  pub linked :
      (k i : ℕ)
      → get k sessions ≡ some i
      → (s : VoiceSession) × (find session_key i objects ≡ some s)
        × (s.interview_id ≡ k)
        × (is_running s.phase ≡ true)
  pub flagged :
      (i : ℕ) (s : VoiceSession)
      → find session_key i objects ≡ some s
      → s.stopped ≡ not (is_running s.phase)
  pub counted : (k : ℕ) → ends_published k published ≡ sessions_over k objects

abbrev pub IsSound : Manager → Type 0
IsSound m = Sound m.objects m.sessions m.published

pub find-put :
    (j : ℕ) (s s' : VoiceSession) (objects : List VoiceSession)
    → find session_key s'.id objects ≡ some s
    → find session_key j (replace session_key s' objects)
      ≡ (if s'.id == j then some s' else find session_key j objects)
find-put j s s' objects h = elim (Bool-cases (s'.id == j)) [
  | inl e ↦
      let same : s'.id ≡ j = eqb→eq s'.id j e in
      rw e (find-replace_self session_key j s' s objects same (rw (← same) h))
  | inr e ↦ rw e (find-replace_ne session_key j s' objects (ground arith))
]

-- A change of a session that neither ends it nor moves its task.
pub record Alike (s s' : VoiceSession) : Type 0 where
  pub id : s'.id ≡ s.id
  pub interview : s'.interview_id ≡ s.interview_id
  pub phase : s'.phase ≡ s.phase
  pub stopped : s'.stopped ≡ s.stopped
  pub nudges : s.idle_nudges ≤ s'.idle_nudges
  pub open_still : (k : ℕ) → has_ended k s ≡ has_ended k s'

module _ {objects : List VoiceSession} {sessions : List (ℕ × ℕ)} {published : List BusEvent}
    (w : Sound objects sessions published) (i : ℕ) (s : VoiceSession)
    (found : find session_key i objects ≡ some s) where
  pub Alike-Sound :
      (s' : VoiceSession) → Alike s s' → Sound (replace session_key s' objects) sessions published
  Alike-Sound s' a =
      let key = find-key session_key i s objects found in
      let there : find session_key s'.id objects ≡ some s =
        ap (λ n. find session_key n objects) (a.id ∙ key) ∙ found in
      record {
        linked = λ k j e.
            let (t, at_j, of_k, runs) = w.linked k j e in
            elim (Bool-cases (s'.id == j)) [
              | inl same ↦
                  let jt : t ≡ s = ground (arith, a.id, key) in
                  (
                    s',
                    rw (find-put j s s' objects there, same) refl,
                    ground (arith, a.interview),
                    ground (arith, a.phase),
                  )
              | inr other ↦ (t, rw (find-put j s s' objects there, other) at_j, of_k, runs)
            ];
        flagged = λ j t e. elim (Bool-cases (s'.id == j)) [
          | inl same ↦
              let old = w.flagged i s found in
              let jt : t ≡ s' = ground (arith, find-put j s s' objects there) in
              ground (arith, a.phase, a.stopped)
          | inr other ↦ w.flagged j t (ground (arith, find-put j s s' objects there))
        ];
        counted = λ k. omega (
          arith,
          w.counted k,
          sessions_over-replace k s s' objects there,
          ap ones (a.open_still k),
        );
      }

  -- A session that leaves the registry, or is not in it, and does not run any longer.
  leaving-Sound :
      (s' : VoiceSession) (sessions' : List (ℕ × ℕ)) (published' : List BusEvent)
      → s'.id ≡ s.id
      → s'.stopped ≡ true
      → is_running s'.phase ≡ false
      → ((k j : ℕ) → get k sessions' ≡ some j → (get k sessions ≡ some j) × ((s.id == j) ≡ false))
      → ((k : ℕ)
          → ends_published k published' + ones (has_ended k s)
            ≡ ends_published k published + ones (has_ended k s'))
      → Sound (replace session_key s' objects) sessions' published'
  leaving-Sound s' sessions' published' id stopped still gone counted =
      let key = find-key session_key i s objects found in
      let there : find session_key s'.id objects ≡ some s =
        ap (λ n. find session_key n objects) (id ∙ key) ∙ found in
      record {
        linked = λ k j e.
            let (before, other) = gone k j e in
            let (t, at_j, of_k, runs) = w.linked k j before in
            let ne : (s'.id == j) ≡ false = rw id other in
            (t, rw (find-put j s s' objects there, ne) at_j, of_k, runs);
        flagged = λ j t e. elim (Bool-cases (s'.id == j)) [
          | inl same ↦
              let jt : t ≡ s' = ground (arith, find-put j s s' objects there) in ground arith
          | inr other ↦ w.flagged j t (ground (arith, find-put j s s' objects there))
        ];
        counted =
            λ k. omega (arith, w.counted k, counted k, sessions_over-replace k s s' objects there);
      }

  pub finalise-Sound :
      is_running s.phase ≡ true
      → Sound
          (replace session_key (record s { stopped = true; phase = uploading }) objects)
          (pop s.interview_id sessions)
          published
  unfolding is_running is_uploading
  finalise-Sound runs =
      leaving-Sound (record s { stopped = true; phase = uploading }) (pop s.interview_id sessions)
        published refl refl refl
        (λ k j e.
          let before : get k sessions ≡ some j =
            ground (arith, get-pop s.interview_id k sessions) in
          let (t, at_j, of_k, _) = w.linked k j before in
          let key = find-key session_key i s objects found in
          (
            before,
            elim (Bool-cases (s.id == j)) [
              | inr other ↦ other
              | inl same ↦
                  let ij : i ≡ j = ground arith in
                  let ts : some t ≡ some s =
                    sym at_j ∙ ap (λ n. find session_key n objects) (sym ij) ∙ found in
                  absurd (ground (arith, get-pop s.interview_id k sessions))
            ],
          ))
        (λ k. ground arith)

  pub over-Sound :
      (published' : List BusEvent)
      → is_running s.phase ≡ false
      → is_uploading s.phase ≡ true
      → ((k : ℕ)
          → ends_published k published'
            ≡ ends_published k published
              + ones ((s.interview_id == k) && not (text_eq s.reason superseded)))
      → Sound (replace session_key (record s { phase = over }) objects) sessions published'
  unfolding is_running is_uploading
  over-Sound published' still up counted =
      leaving-Sound (record s { phase = over }) sessions published' refl
        (ground (arith, w.flagged i s found)) refl
        (λ k j e.
          let (t, at_j, _, runs) = w.linked k j e in
          let key = find-key session_key i s objects found in
          (
            e,
            elim (Bool-cases (s.id == j)) [
              | inr other ↦ other
              | inl same ↦
                  let ij : i ≡ j = ground arith in
                  let ts : some t ≡ some s =
                    sym at_j ∙ ap (λ n. find session_key n objects) (sym ij) ∙ found in
                  absurd (ground arith)
            ],
          ))
        (λ k. ground (arith, counted k))

pub register-Sound :
    (objects : List VoiceSession) (sessions : List (ℕ × ℕ)) (published : List BusEvent)
    (s : VoiceSession) (org candidate : ℕ)
    → Sound objects sessions published
    → find session_key s.id objects ≡ none
    → is_running s.phase ≡ true
    → s.stopped ≡ false
    → Sound
        (s ∷ objects)
        (put s.interview_id s.id sessions)
        (session_started org s.interview_id candidate ∷ published)
unfolding find
register-Sound objects sessions published s org candidate w fresh runs awake = record {
  linked = λ k j e. elim (Bool-cases (s.interview_id == k)) [
    | inl same ↦
        let ij : s.id ≡ j = ground (arith, get-put s.interview_id k s.id sessions) in
        (s, ground (arith, eq_refl j), ground arith, runs)
    | inr other ↦
        let before : get k sessions ≡ some j =
          ground (arith, get-put s.interview_id k s.id sessions) in
        let (t, at_j, of_k, t_runs) = w.linked k j before in
        (
          t,
          elim (Bool-cases (s.id == j)) [
            | inl same ↦
                let ij : s.id ≡ j = ground arith in
                absurd (ground (arith, ap (λ n. find session_key n objects) ij))
            | inr ne ↦ rw ne at_j
          ],
          of_k,
          t_runs,
        )
  ];
  flagged = λ j t e. elim (Bool-cases (s.id == j)) [
    | inl same ↦ ground arith
    | inr other ↦ w.flagged j t (ground arith)
  ];
  counted = λ k. ground (arith, w.counted k);
}
