-- ===== src/Access/Callers.antt =====
-- Who is calling, and how often: app/core/dependencies.py. Times are in seconds.
use ai_interviewer.Base.{
  ℕ, ◌+◌, ◌-◌, not, Option, none, some, List, Result, ok, err, raise_if, ◌>>=◌, ◌>>◌, ltb, leb,
  if◌then◌else◌,
}
use ai_interviewer.Base.Lists.{some_of}
use ai_interviewer.Base.Text.{Text, codes, text_eq}
use ai_interviewer.Access.{
  access, interview, Jwt, Settings, AccessError, unauthenticated, permission_denied, rate_limited,
  Principal, access_principal, interview_principal, decode_token,
}

-- `try` the one, and on an `AuthenticationError` the other
abbrev pub first_of :
    Result AccessError Principal → Result AccessError Principal → Result AccessError Principal
first_of (ok p) other = ok p
first_of (err _) other = other

module _ {Raw : Type 0} (j : Jwt Raw) (c : Settings) where
  -- `get_principal` on the credentials of the request: their scheme, in lower case, and the token, which may
  -- be empty
  unfoldable pub get_principal : ℕ → Option (Text × Option Raw) → Result AccessError Principal
  get_principal now none = err unauthenticated
  get_principal now (some (scheme, none)) = err unauthenticated
  get_principal now (some (scheme, some raw)) =
      if not (text_eq scheme (codes "bearer"))
      then err unauthenticated
      else first_of (decode_token j c now raw access >>= access_principal)
          (decode_token j c now raw interview >>= interview_principal)

-- `get_current_user`
unfoldable pub get_current_user : Principal → Result AccessError Principal
get_current_user p = if not p.is_user then err permission_denied else ok p

unfoldable pub get_current_candidate : Principal → Result AccessError Principal
get_current_candidate p = if p.is_user then err permission_denied else ok p

-- `require_role`, of the values of the roles
unfoldable pub require_role : List Text → Principal → Result AccessError Principal
require_role allowed p = do
  user ← get_current_user p
  raise_if (not (some_of (λ r. text_eq user.role r) allowed)) permission_denied
  ok user

-- the counter of one bucket and identifier in Redis, and the time at which its key expires
pub record Counter : Type 0 where
  pub count : ℕ
  pub expires_at : ℕ

-- `INCR`, then `EXPIRE`
unfoldable pub count_attempt : (window now : ℕ) → Option Counter → Counter
count_attempt window now none = record { count = 1; expires_at = now + window }
count_attempt window now (some k) = record {
  count = if leb k.expires_at now then 1 else k.count + 1;
  expires_at = now + window;
}

unfoldable pub rate_limit :
    (limit window now : ℕ) → Option Counter → Result AccessError (Unit {0}) × Counter
rate_limit limit window now stored =
    let k = count_attempt window now stored in
    let ttl = k.expires_at - now in
    (if ltb limit k.count then err (rate_limited (if ltb ttl 1 then 1 else ttl)) else ok tt, k)
