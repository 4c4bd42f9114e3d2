-- ===== src/Auth/Tokens.antt =====
-- The store of refresh tokens: app/modules/auth/tokens.py. A family, a token and a user are numbers; a
-- Redis set is a list of pairs, of the set's owner and the member. Times to live are left out: a record
-- outlives the token that it describes.
pub mod Spent
pub mod Replay
use ai_interviewer.Base.{
  ℕ, Bool, true, false, not, ◌&&◌, ◌||◌, Option, none, some, List, [], ◌∷◌, ◌==◌, if◌then◌else◌,
}
use ai_interviewer.Base.Lists.{contains, keep, length}
use ai_interviewer.Base.Rows.{find, replace}

-- the hash `rt:{jti}`
pub record Token : Type 0 where
  pub jti : ℕ
  pub uid : ℕ
  pub org : ℕ
  pub fam : ℕ
  pub active : Bool

abbrev pub token_key : Token → ℕ
token_key t = t.jti

-- `rt:*`, `rtfam:{fam}`, `rtfam:dead:{fam}` and `rtuser:{uid}`
pub record RefreshTokenStore : Type 0 where
  pub tokens : List Token
  pub members : List (ℕ × ℕ)
  pub dead : List ℕ
  pub families : List (ℕ × ℕ)

pub data ConsumeOutcome : Type 0 where
  accepted reuse unknown dead mismatch : ConsumeOutcome

unfoldable pub is_ok : ConsumeOutcome → Bool
is_ok accepted = true
is_ok _ = false

-- `SMEMBERS`
unfoldable pub members_of : ℕ → List (ℕ × ℕ) → List ℕ
members_of owner [] = []
members_of owner ((o, m) ∷ sets) =
    let rest = members_of owner sets in if o == owner then m ∷ rest else rest

-- `SADD`
unfoldable pub add_member : ℕ → ℕ → List (ℕ × ℕ) → List (ℕ × ℕ)
unfolding members_of
add_member owner member sets =
    if contains member (members_of owner sets) then sets else (owner, member) ∷ sets

-- `DEL` of the set of an owner
abbrev pub drop_set : ℕ → List (ℕ × ℕ) → List (ℕ × ℕ)
drop_set owner sets = keep (λ s. not (s.0 == owner)) sets

-- `HSET`
unfoldable pub put_token : Token → List Token → List Token
put_token t [] = t ∷ []
put_token t (s ∷ ts) = if s.jti == t.jti then t ∷ ts else s ∷ put_token t ts

unfoldable pub register : ℕ → ℕ → ℕ → ℕ → RefreshTokenStore → RefreshTokenStore
register jti user_id org_id family_id s = record s {
  tokens =
      put_token (record { jti = jti; uid = user_id; org = org_id; fam = family_id; active = true })
        s.tokens;
  members = add_member family_id jti s.members;
  families = add_member user_id family_id s.families;
}

abbrev pub tombstone : ℕ → RefreshTokenStore → RefreshTokenStore
tombstone family_id s = record s { dead = family_id ∷ s.dead }

-- `DEL` of the records of a family's members, and of the family's set
unfoldable pub purge : ℕ → RefreshTokenStore → RefreshTokenStore
purge family_id s = record s {
  tokens = keep (λ t. not (contains t.jti (members_of family_id s.members))) s.tokens;
  members = drop_set family_id s.members;
}

-- the Lua script, on the record that it finds
unfoldable pub judge : ℕ → ℕ → Option Token → RefreshTokenStore → ConsumeOutcome × RefreshTokenStore
judge user_id family_id none s = (unknown, tombstone family_id s)
judge user_id family_id (some t) s =
    if not (t.uid == user_id) || not (t.fam == family_id)
    then (mismatch, tombstone family_id s)
    else if not t.active
    then (reuse, purge family_id (tombstone family_id s))
    else (accepted, record s { tokens = put_token (record t { active = false }) s.tokens })

unfoldable pub consume : ℕ → ℕ → ℕ → RefreshTokenStore → ConsumeOutcome × RefreshTokenStore
unfolding judge
consume jti user_id family_id s =
    if contains family_id s.dead
    then (dead, s)
    else judge user_id family_id (find token_key jti s.tokens) s

unfoldable pub revoke_family : ℕ → RefreshTokenStore → RefreshTokenStore
unfolding purge
revoke_family family_id s = purge family_id (tombstone family_id s)

unfoldable pub revoke_each : List ℕ → RefreshTokenStore → RefreshTokenStore
unfolding revoke_family
revoke_each [] s = s
revoke_each (f ∷ fs) s = revoke_each fs (revoke_family f s)

unfoldable pub revoke_all_for_user : ℕ → RefreshTokenStore → RefreshTokenStore × ℕ
unfolding revoke_each members_of
revoke_all_for_user user_id s =
    let fams = members_of user_id s.families in
    let revoked = revoke_each fams s in
    (record revoked { families = drop_set user_id revoked.families }, length fams)

unfoldable pub is_family_dead : ℕ → RefreshTokenStore → Bool
is_family_dead family_id s = contains family_id s.dead
