-- ===== src/Users.antt =====
-- Recruiters and candidates: app/modules/users/service.py, over the tables of app/models/user.py. Row level
-- security shows a session the rows of its organisation `org` alone.
pub mod Edited
pub mod Admins
pub mod Skew
use ai_interviewer.Base.{
  ℕ, ◌+◌, Bool, true, false, not, ◌&&◌, ◌||◌, Option, none, some, List, [], ◌∷◌, Result, ok, err,
  raise_if, ◌>>=◌, ◌>>◌, ◌==◌, if◌then◌else◌,
}
use ai_interviewer.Base.Lists.{some_of, keep}
use ai_interviewer.Base.Rows.{find, replace}
use ai_interviewer.Base.Text.{Text, text_eq}

pub data UserRole : Type 0 where
  admin recruiter : UserRole

unfoldable pub is_admin : UserRole → Bool
is_admin admin = true
is_admin recruiter = false

-- the password hash is left out; an email is compared without case, as `citext` does
pub record User : Type 0 where
  pub id : ℕ
  pub org_id : ℕ
  pub email : Text
  pub full_name : Option Text
  pub role : UserRole
  pub is_active : Bool

pub record Candidate : Type 0 where
  pub id : ℕ
  pub org_id : ℕ
  pub email : Text
  pub full_name : Option Text
  pub phone : Option Text
  pub external_ref : Option Text

pub data UserError : Type 0 where
  not_found : UserError
  email_not_available : UserError
  own_admin_role : UserError
  own_account : UserError
  last_admin : UserError
  candidate_exists : UserError

abbrev pub user_key : User → ℕ
user_key u = u.id

abbrev pub candidate_key : Candidate → ℕ
candidate_key c = c.id

-- `fields_set` with the values: a field that the client did not send is `none`
pub record UserUpdate : Type 0 where
  pub full_name : Option (Option Text)
  pub role : Option (Option UserRole)
  pub is_active : Option (Option Bool)

unfoldable pub get_user : (org k : ℕ) → List User → Result UserError User
get_user org k users = elim (find user_key k users) [
  | none ↦ err not_found
  | some u ↦ if u.org_id == org then ok u else err not_found
]

unfoldable pub create_user : (fold : Text → Text) → User → List User → Result UserError (List User)
create_user fold u users =
    if some_of (λ v. text_eq (fold v.email) (fold u.email)) users
    then err email_not_available
    else ok (u ∷ users)

-- the `count` of `_guard_last_admin`
unfoldable pub other_admins : (org k : ℕ) → List User → ℕ
other_admins org k [] = 0
other_admins org k (u ∷ users) =
    (if (u.org_id == org) && (is_admin u.role && (u.is_active && not (u.id == k))) then 1 else 0)
    + other_admins org k users

-- `_guard_last_admin`; `new_role` is given, or `deactivating` is true
unfoldable pub guard_last_admin :
    ℕ → List User → User → Option UserRole → Bool → Result UserError (Unit {0})
guard_last_admin org users u new_role deactivating =
    let demoted : Bool = elim new_role [ none ↦ false | some r ↦ not (is_admin r) ] in
    let losing_admin = is_admin u.role && (deactivating || demoted) in
    if not losing_admin || not u.is_active
    then ok tt
    else raise_if (other_admins org u.id users == 0) last_admin

-- the refusals for an admin's own row
unfoldable pub guard_self : User → ℕ → UserUpdate → Result UserError (Unit {0})
guard_self u acting update =
    let demotes : Bool = elim update.role [ some (some r) ↦ not (is_admin r) | _ ↦ false ] in
    let deactivates : Bool = elim update.is_active [ some (some a) ↦ not a | _ ↦ false ] in
    if not (u.id == acting)
    then ok tt
    else if demotes
    then err own_admin_role
    else raise_if deactivates own_account

unfoldable pub set_full_name : Option (Option Text) → User → User
set_full_name none u = u
set_full_name (some name) u = record u { full_name = name }

unfoldable pub set_role : ℕ → List User → Option (Option UserRole) → User → Result UserError User
set_role org users (some (some r)) u =
    guard_last_admin org users u (some r) false >> ok (record u { role = r })
set_role org users _ u = ok u

unfoldable pub set_active : ℕ → List User → Option (Option Bool) → User → Result UserError User
set_active org users (some (some true)) u = ok (record u { is_active = true })
set_active org users (some (some false)) u =
    guard_last_admin org users u none true >> ok (record u { is_active = false })
set_active org users _ u = ok u

-- `update_user` up to its flush: the row to write, from the table as the transaction sees it
unfoldable pub updated_user : (org k acting : ℕ) → UserUpdate → List User → Result UserError User
updated_user org k acting update users = do
  u ← get_user org k users
  guard_self u acting update
  roled ← set_role org users update.role (set_full_name update.full_name u)
  set_active org users update.is_active roled

unfoldable pub update_user :
    (org k acting : ℕ) → UserUpdate → List User → Result UserError (List User)
update_user org k acting update users =
    updated_user org k acting update users >>= λ u. ok (replace user_key u users)

abbrev pub deactivation : UserUpdate
deactivation = record { full_name = none; role = none; is_active = some (some false) }

unfoldable pub deactivate_user : (org k acting : ℕ) → List User → Result UserError (List User)
deactivate_user org k acting users = update_user org k acting deactivation users

-- `email` and the fields, of a candidate
unfoldable pub create_candidate :
    (fold : Text → Text) → Candidate → List Candidate → Result UserError (List Candidate)
create_candidate fold c candidates =
    if some_of (λ d. (d.org_id == c.org_id) && text_eq (fold d.email) (fold c.email)) candidates
    then err candidate_exists
    else ok (c ∷ candidates)

unfoldable pub get_candidate : (org k : ℕ) → List Candidate → Result UserError Candidate
get_candidate org k candidates = elim (find candidate_key k candidates) [
  | none ↦ err not_found
  | some c ↦ if c.org_id == org then ok c else err not_found
]

-- `setattr` of a field that the client sent
abbrev pub sent_or : {A : Type 0} → Option A → A → A
sent_or none old = old
sent_or (some new) _ = new

unfoldable pub update_candidate :
    (org k : ℕ) (full_name phone external_ref : Option (Option Text))
    → List Candidate
    → Result UserError (List Candidate)
update_candidate org k full_name phone external_ref candidates = do
  c ← get_candidate org k candidates
  ok (
      replace candidate_key
        (record c {
          full_name = sent_or full_name c.full_name;
          phone = sent_or phone c.phone;
          external_ref = sent_or external_ref c.external_ref;
        })
        candidates)

unfoldable pub delete_candidate : (org k : ℕ) → List Candidate → Result UserError (List Candidate)
delete_candidate org k candidates = do
  c ← get_candidate org k candidates
  ok (keep (λ d. not (d.id == c.id)) candidates)
