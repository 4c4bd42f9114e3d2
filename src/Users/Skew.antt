-- ===== src/Users/Skew.antt =====
-- Two edits at once: the count of the guard is a read, and the transactions of two requests both read before
-- either writes.
use ai_interviewer.Base.{
  ℕ, ◌<◌, ◌≡◌, ◌≢◌, sym, ◌∙◌, ap, true, false, none, some, List, [], ◌∷◌, arith, ok, ◌==◌,
  Bool-cases, inl, inr,
}
use ai_interviewer.Base.Rows.{find, replace, find-key, find-replace_ne}
use ai_interviewer.Users.{
  User, admin, recruiter, is_admin, UserUpdate, user_key, get_user, other_admins, guard_last_admin,
  guard_self, set_full_name, set_role, set_active, updated_user,
}
use ai_interviewer.Users.Edited.{admins, admins-replace}

abbrev pub demotion : UserUpdate
demotion = record { full_name = none; role = some (some recruiter); is_active = none }

other_admin-counted :
    (org a b : ℕ) (v : User) (users : List User)
    → a ≢ b
    → find user_key b users ≡ some v
    → v.org_id ≡ org
    → v.role ≡ admin
    → v.is_active ≡ true
    → 0 < other_admins org a users
unfolding find other_admins is_admin
other_admin-counted org a b v [] apart at_b of role active = cc
other_admin-counted org a b v (x ∷ users) apart at_b of role active =
    elim (Bool-cases (x.id == b)) [
      | inl e ↦
          let same : x ≡ v = ground arith in
          let other : (x.id == a) ≡ false = ground arith in ground arith
      | inr e ↦ ground (arith, other_admin-counted org a b v users)
    ]

demoted :
    (org a b : ℕ) (u : User) (users : List User)
    → a ≢ b
    → find user_key a users ≡ some u
    → u.org_id ≡ org
    → 0 < other_admins org a users
    → updated_user org a b demotion users ≡ ok (record u { role = recruiter })
unfolding updated_user get_user guard_self set_full_name set_role set_active guard_last_admin
    is_admin
demoted org a b u users apart at_a of others =
    let key : u.id ≡ a = find-key user_key a u users at_a in
    let count : other_admins org u.id users ≡ other_admins org a users =
      ap (λ n. other_admins org n users) key in
    ground arith

-- Where two active admins each demote the other, and both requests read the table before either writes, both
-- are accepted; when both have written, neither is an admin, and an organisation of which they were the only
-- active admins has none.
pub demotions_skew :
    (org a b : ℕ) (u v : User) (users : List User)
    → a ≢ b
    → find user_key a users ≡ some u
    → find user_key b users ≡ some v
    → (u.org_id ≡ org) × (v.org_id ≡ org)
    → (u.role ≡ admin) × (v.role ≡ admin)
    → (u.is_active ≡ true) × (v.is_active ≡ true)
    → admins org users ≡ 2
    → (updated_user org a b demotion users ≡ ok (record u { role = recruiter }))
      × (updated_user org b a demotion users ≡ ok (record v { role = recruiter }))
      × (admins org (
            replace user_key
              (record v { role = recruiter })
              (replace user_key (record u { role = recruiter }) users))
          ≡ 0)
demotions_skew org a b u v users apart at_a at_b of role active two =
    let key_u = find-key user_key a u users at_a in
    let key_v = find-key user_key b v users at_b in
    let u' = record u { role = recruiter } in
    let v' = record v { role = recruiter } in
    let there : find user_key u'.id users ≡ some u = ap (λ n. find user_key n users) key_u ∙ at_a in
    let first = admins-replace org u u' users there in
    let apart' : u'.id ≢ v'.id = λ e. apart (sym key_u ∙ e ∙ key_v) in
    let still : find user_key v'.id (replace user_key u' users) ≡ some v =
      find-replace_ne user_key v'.id u' users apart'
      ∙ ap (λ n. find user_key n users) key_v
      ∙ at_b in
    let second = admins-replace org v v' (replace user_key u' users) still in
    (
      demoted org a b u users apart at_a of.0
          (other_admin-counted org a b v users apart at_b of.1 role.1 active.1),
      demoted org b a v users (λ e. apart (sym e)) at_b of.1
          (other_admin-counted org b a u users (λ e. apart (sym e)) at_a of.0 role.0 active.0),
      unfold is_admin in ground (arith, first, second),
    )
