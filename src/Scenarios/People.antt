-- ===== src/Scenarios/People.antt =====
-- Scenarios of users, of tokens and of the limit on attempts.
use ai_interviewer.Base.{
  ℕ, ◌+◌, ◌*◌, ◌<◌, ◌≡◌, refl, true, false, none, some, List, [], ◌∷◌, arith, ok, err, ltb, leb,
  ◌&&◌, if◌then◌else◌,
}
use ai_interviewer.Base.Rows.{find, replace}
use ai_interviewer.Base.Text.{Text, codes, text_eq}
use ai_interviewer.Users.{User, admin, recruiter, user_key, updated_user, is_admin}
use ai_interviewer.Users.Edited.{admins}
use ai_interviewer.Users.Admins.{Call, deactivates, calls, calls-admins}
use ai_interviewer.Users.Skew.{demotion, demotions_skew}
use ai_interviewer.Access.{
  Claims, Jwt, Settings, invalid_token, create_access_token, create_refresh_token,
  create_invite_token, create_interview_token,
}
use ai_interviewer.Access.Callers.{get_principal}
use ai_interviewer.Access.Sealed.{Lawful, get_principal-minted}
use ai_interviewer.Access.Lockout.{attempts, Close, granted, attempts-granted}

abbrev ann : User
ann = record {
  id = 1;
  org_id = 7;
  email = codes "ann@x.io";
  full_name = none;
  role = admin;
  is_active = true;
}

abbrev bob : User
bob = record ann { id = 2; email = codes "bob@x.io" }

abbrev team : List User
team = ann ∷ bob ∷ []

-- each deactivates the other, one after the other: the second call is refused
abbrev feud : List Call
feud = deactivates 7 2 1 ∷ deactivates 7 1 2 ∷ []

abbrev as_is : Text → Text
as_is s = s

calls-admins_example : 0 < admins 7 (calls as_is feud team)
unfolding is_admin
calls-admins_example = calls-admins as_is feud 7 team (omega arith)

ann_there : find user_key 1 team ≡ some ann
unfolding find
ann_there = refl

bob_there : find user_key 2 team ≡ some bob
unfolding find
bob_there = refl

two_admins : admins 7 team ≡ 2
unfolding is_admin
two_admins = refl

demotions_skew_example :
    (updated_user 7 1 2 demotion team ≡ ok (record ann { role = recruiter }))
    × (updated_user 7 2 1 demotion team ≡ ok (record bob { role = recruiter }))
    × (admins 7 (
          replace user_key
            (record bob { role = recruiter })
            (replace user_key (record ann { role = recruiter }) team))
        ≡ 0)
demotions_skew_example =
    demotions_skew 7 1 2 ann bob team (omega arith) ann_there bob_there (refl, refl) (refl, refl)
      (refl, refl) two_admins

-- a token is what was signed, beside its key
abbrev open_jwt : Jwt (Text × Claims)
open_jwt = record {
  encode = λ key p. (key, p);
  decode = λ key aud iss leeway now raw.
      if text_eq key raw.0
        && (text_eq raw.1.aud aud
            && (text_eq raw.1.iss iss
                && (ltb now (raw.1.exp + leeway)
                    && (leb raw.1.nbf (now + leeway) && leb raw.1.iat (now + leeway)))))
      then some raw.1
      else none;
  hmac = λ secret message. message;
}

open_jwt-Lawful : Lawful open_jwt
open_jwt-Lawful = λ key key' aud iss leeway now p. refl

abbrev settings : Settings
settings = record {
  jwt_secret = codes "s";
  jwt_issuer = codes "aii";
  access_token_ttl_minutes = 15;
  refresh_token_ttl_days = 14;
  invite_ttl_hours = 72;
  interview_token_ttl_minutes = 60;
}

get_principal-minted_example :
    (get_principal open_jwt settings 2000 (
        some
          (codes "bearer", some (create_access_token open_jwt settings 1 7 (codes "ADMIN") 1000 8)))
      ≡ (if ltb 2000 (1000 + 15 * 60 + 10)
          then ok (record {
            org_id = 7;
            is_user = true;
            actor_id = 1;
            role = codes "ADMIN";
            jti = 8;
            interview_id = none;
          })
          else err invalid_token))
    × (get_principal open_jwt settings 2000
          (some (codes "bearer", some (create_interview_token open_jwt settings 3 7 5 6 1000 8)))
        ≡ (if ltb 2000 (1000 + 60 * 60 + 10)
            then ok (record {
              org_id = 7;
              is_user = false;
              actor_id = 3;
              role = codes "CANDIDATE";
              jti = 8;
              interview_id = some 5;
            })
            else err invalid_token))
    × (get_principal open_jwt settings 2000
          (some (codes "bearer", some (create_refresh_token open_jwt settings 1 7 4 9 1000 8)))
        ≡ err invalid_token)
    × (get_principal open_jwt settings 2000
          (some (codes "bearer", some (create_invite_token open_jwt settings 6 7 9 1000 8)))
        ≡ err invalid_token)
get_principal-minted_example =
    get_principal-minted open_jwt settings open_jwt-Lawful 1 7 3 5 6 4 9 1000 2000 8 (codes "ADMIN")
      (omega arith)

-- four attempts, ten minutes apart, of a window of fifteen
abbrev times : List ℕ
times = 600 ∷ 1200 ∷ 1800 ∷ []

times-Close : Close 900 0 times
times-Close = (omega arith, omega arith, (omega arith, omega arith, (omega arith, omega arith, tt)))

attempts-granted_example : attempts 2 900 (0 ∷ times) none ≡ granted 2 (0 ∷ times)
attempts-granted_example = attempts-granted 2 900 0 times times-Close
