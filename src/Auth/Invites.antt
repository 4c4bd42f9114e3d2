-- ===== src/Auth/Invites.antt =====
-- Invite links: app/modules/auth/invites.py, over the rows that a session of the organisation sees. The
-- identities that are drawn, the clock and the settings are arguments; a call that raises leaves the rows
-- as they were.
pub mod Limit
use ai_interviewer.Base.{
  ℕ, ◌+◌, ◌*◌, Bool, true, false, not, ◌&&◌, ◌||◌, Option, none, some, List, [], ◌∷◌, Result, ok,
  err, raise_if, ◌>>=◌, ◌>>◌, ltb, ◌==◌, if◌then◌else◌, is_none, or_else,
}
use ai_interviewer.Base.Rows.{find, replace}
use ai_interviewer.Base.Lists.{is_empty}
use ai_interviewer.Base.Text.{Text, text_eq}
use ai_interviewer.Interview.{Interview, invited, is_terminal}

pub data InviteStatus : Type 0 where
  pending redeemed revoked expired : InviteStatus

pub record Invite : Type 0 where
  pub id : ℕ
  pub org_id : ℕ
  pub interview_id : ℕ
  pub candidate_id : ℕ
  pub jti : ℕ
  pub status : InviteStatus
  pub expires_at : ℕ
  pub redeemed_at : Option ℕ
  pub revoked_at : Option ℕ
  pub redemption_count : ℕ
  pub max_redemptions : ℕ

pub record Candidate : Type 0 where
  pub id : ℕ
  pub email : Text
  pub full_name : Option Text

pub record Tables : Type 0 where
  pub invites : List Invite
  pub interviews : List Interview
  pub candidates : List Candidate

pub data InviteError : Type 0 where
  unusable not_found : InviteError

abbrev pub invite_key : Invite → ℕ
invite_key i = i.id

abbrev pub interview_key : Interview → ℕ
interview_key i = i.id

abbrev pub put_invite : Invite → Tables → Tables
put_invite i t = record t { invites = replace invite_key i t.invites }

-- `status IN ('PENDING', 'REDEEMED')`
unfoldable pub is_open : InviteStatus → Bool
is_open pending = true
is_open redeemed = true
is_open _ = false

-- the `WHERE` clause of the conditional update, but for the row's key
unfoldable pub is_redeemable : ℕ → ℕ → Invite → Bool
is_redeemable now jti i =
    (i.jti == jti)
    && (is_open i.status
        && (is_none i.revoked_at
            && (ltb now i.expires_at && ltb i.redemption_count i.max_redemptions)))

-- its `SET` clause
unfoldable pub redeem_row : ℕ → Invite → Invite
redeem_row now i = record i {
  redemption_count = i.redemption_count + 1;
  status = redeemed;
  redeemed_at = some (or_else i.redeemed_at now);
}

pub record RedeemedInvite : Type 0 where
  pub interview_id : ℕ
  pub candidate_id : ℕ
  pub invite_id : ℕ

-- `interview is not None and state_machine.is_terminal(interview.status)`
unfoldable pub has_ended : ℕ → List Interview → Bool
has_ended k interviews = elim (find interview_key k interviews) [
  | none ↦ false
  | some i ↦ is_terminal i.status
]

-- `redeem_invite`, on the invite and the identity that the token names, or none for a token that does not
-- decode
unfoldable pub redeem_invite :
    ℕ → Option (ℕ × ℕ) → Tables → Result InviteError (RedeemedInvite × Tables)
redeem_invite now none t = err unusable
redeem_invite now (some (invite_id, jti)) t = elim (find invite_key invite_id t.invites) [
  | none ↦ err unusable
  | some i ↦
      if not (is_redeemable now jti i)
      then err unusable
      else if has_ended i.interview_id t.interviews
      then err unusable
      else ok (
        record { interview_id = i.interview_id; candidate_id = i.candidate_id; invite_id = i.id },
        put_invite (redeem_row now i) t,
      )
]

unfoldable pub revoke_row : ℕ → Invite → Invite
revoke_row now i = record i { status = revoked; revoked_at = some now }

unfoldable pub revoke_invite : ℕ → ℕ → Tables → Result InviteError Tables
revoke_invite now k t = elim (find invite_key k t.invites) [
  | none ↦ err not_found
  | some i ↦ ok (put_invite (revoke_row now i) t)
]

unfoldable pub find_email : Text → List Candidate → Option Candidate
find_email email [] = none
find_email email (c ∷ cs) = if text_eq c.email email then some c else find_email email cs

-- `not full_name`, of a column that may be empty
abbrev pub is_blank_name : Option Text → Bool
is_blank_name none = true
is_blank_name (some s) = is_empty s

abbrev pub candidate_key : Candidate → ℕ
candidate_key c = c.id

-- the candidate of the invite: created, or found and given the name that it lacked
unfoldable pub upsert_candidate : ℕ → Text → Option Text → List Candidate → ℕ × List Candidate
upsert_candidate new_id email name cs = elim (find_email email cs) [
  | none ↦ (new_id, (record { id = new_id; email = email; full_name = name }) ∷ cs)
  | some c ↦
      if not (is_blank_name name) && is_blank_name c.full_name
      then (c.id, replace candidate_key (record c { full_name = name }) cs)
      else (c.id, cs)
]

-- the identities that a call draws
pub record Drawn : Type 0 where
  pub candidate : ℕ
  pub interview : ℕ
  pub invite : ℕ
  pub jti : ℕ

-- `max_redemptions or settings.invite_max_redemptions`
abbrev pub limit_or : Option ℕ → ℕ → ℕ
limit_or none d = d
limit_or (some n) d = if n == 0 then d else n

abbrev pub new_invite : ℕ → Drawn → ℕ → ℕ → ℕ → ℕ → Invite
new_invite now drawn org_id ttl_hours candidate_id limit = record {
  id = drawn.invite;
  org_id = org_id;
  interview_id = drawn.interview;
  candidate_id = candidate_id;
  jti = drawn.jti;
  status = pending;
  expires_at = now + ttl_hours * 3600;
  redeemed_at = none;
  revoked_at = none;
  redemption_count = 0;
  max_redemptions = limit;
}

abbrev pub new_interview : ℕ → Drawn → ℕ → ℕ → Option ℕ → Interview
new_interview now drawn org_id candidate_id job_id = record {
  id = drawn.interview;
  org_id = org_id;
  candidate_id = candidate_id;
  job_id = job_id;
  status = invited;
  created_at = now;
  scheduled_at = none;
  started_at = none;
  completed_at = none;
  recording_key = none;
}

unfoldable pub create_invite :
    ℕ → Drawn → ℕ → ℕ → ℕ → Text → Option Text → Option ℕ → Option ℕ → Tables → Invite × Tables
create_invite now drawn org_id ttl_hours default_max email name job_id max_redemptions t =
    let (candidate_id, candidates) = upsert_candidate drawn.candidate email name t.candidates in
    let invite =
      new_invite now drawn org_id ttl_hours candidate_id (limit_or max_redemptions default_max) in
    (
      invite,
      record {
        invites = invite ∷ t.invites;
        interviews = new_interview now drawn org_id candidate_id job_id ∷ t.interviews;
        candidates = candidates;
      },
    )
