-- ===== src/Scenarios/Links.antt =====
-- Scenarios of tokens and invite links.
use ai_interviewer.Base.{
  ℕ, ◌+◌, ◌≤◌, ◌≡◌, refl, ◌⊎◌, true, false, Option, none, some, List, [], ◌∷◌, arith, ok, err,
}
use ai_interviewer.Base.Rows.{find}
use ai_interviewer.Base.Text.{codes}
use ai_interviewer.Auth.Tokens.{RefreshTokenStore, dead, is_ok, consume}
use ai_interviewer.Auth.Tokens.Spent.{Call, calls, registering}
use ai_interviewer.Auth.Tokens.Replay.{Dead, consumed_once}
use ai_interviewer.Auth.Sessions.{
  UserRow, admin, RefreshClaims, TokenPair, invalid_token, rotate_refresh,
  rotate_refresh-hands_over,
}
use ai_interviewer.Auth.Invites.{Invite, Tables, invite_key, redeemed}
use ai_interviewer.Auth.Invites.Limit.{Request, redeeming, revoking, redemptions, redeemed-at_most}

-- user 3 of organisation 7 logs in: token 1 of family 5
abbrev logged_in : RefreshTokenStore
logged_in = record {
  tokens = record { jti = 1; uid = 3; org = 7; fam = 5; active = true } ∷ [];
  members = (5, 1) ∷ [];
  dead = [];
  families = (3, 5) ∷ [];
}

first_use : is_ok (consume 1 3 5 logged_in).0 ≡ true
unfolding is_ok consume find
first_use = refl

-- the rotation that mints the next token
abbrev renewal : List Call
renewal = registering 2 3 7 5 ∷ []

consumed_once_example :
    (is_ok (consume 1 3 5 (calls renewal (consume 1 3 5 logged_in).1)).0 ≡ false)
    × ((k anyone : ℕ)
        → (consume k anyone 5
            (calls renewal (consume 1 3 5 (calls renewal (consume 1 3 5 logged_in).1)).1)).0
          ≡ dead)
consumed_once_example = consumed_once 1 3 5 3 5 renewal renewal logged_in first_use (refl, tt)

abbrev users : ℕ → Option UserRow
users k = some (record {
  id = k;
  org_id = 7;
  hashed_password = codes "hash";
  role = admin;
  is_active = true;
  org_active = true;
})

abbrev claims : RefreshClaims
claims = record { jti = 1; user_id = 3; org_id = 7; family_id = 5 }

rotate_refresh-hands_over_example :
    ((pair : TokenPair) × ((rotate_refresh users 2 (some claims) logged_in).0 ≡ ok pair)
      × (is_ok
            (consume pair.refresh.jti pair.refresh.user_id pair.refresh.family_id
              (rotate_refresh users 2 (some claims) logged_in).1).0
          ≡ true))
    ⊎ (((rotate_refresh users 2 (some claims) logged_in).0 ≡ err invalid_token)
        × Dead 5 (rotate_refresh users 2 (some claims) logged_in).1)
rotate_refresh-hands_over_example = rotate_refresh-hands_over users 2 claims logged_in

abbrev invite : Invite
invite = record {
  id = 4;
  org_id = 7;
  interview_id = 2;
  candidate_id = 6;
  jti = 40;
  status = redeemed;
  expires_at = 1000;
  redeemed_at = some 10;
  revoked_at = none;
  redemption_count = 2;
  max_redemptions = 3;
}

abbrev tables : Tables
tables = record { invites = invite ∷ []; interviews = []; candidates = [] }

abbrev requests : List Request
requests = redeeming 20 (some (4, 40)) ∷ redeeming 21 (some (4, 40)) ∷ revoking 22 4 ∷ []

there : find invite_key 4 tables.invites ≡ some invite
unfolding find
there = refl

redeemed-at_most_example : 2 + redemptions 4 requests tables ≤ 3
redeemed-at_most_example = redeemed-at_most 4 requests tables invite there (omega arith)
