-- ===== src/Users/Edited.antt =====
-- What an update that is accepted changes in the row, and the active admins of an organisation.
use ai_interviewer.Base.{
  ℕ, ◌+◌, ◌≤◌, ◌<◌, ◌≡◌, refl, ◌∙◌, Bool, true, false, ◌&&◌, Option, none, some, List, [], ◌∷◌,
  arith, ok, ◌==◌, if◌then◌else◌, Bool-cases, Option-cases, Result-cases, inl, inr,
}
use ai_interviewer.Base.Rows.{find, replace}
use ai_interviewer.Base.Text.{Text}
use ai_interviewer.Users.{
  User, UserRole, is_admin, UserUpdate, user_key, get_user, other_admins, guard_last_admin,
  set_full_name, set_role, set_active, updated_user,
}

abbrev pub is_active_admin : ℕ → User → Bool
is_active_admin org u = (u.org_id == org) && (is_admin u.role && u.is_active)

abbrev pub ones : Bool → ℕ
ones b = if b then 1 else 0

-- the number of active admins
abbrev pub admins : ℕ → List User → ℕ
admins org [] = 0
admins org (u ∷ users) = ones (is_active_admin org u) + admins org users

pub admins-replace :
    (org : ℕ) (u u' : User) (users : List User)
    → find user_key u'.id users ≡ some u
    → admins org (replace user_key u' users) + ones (is_active_admin org u)
      ≡ admins org users + ones (is_active_admin org u')
unfolding find replace
admins-replace org u u' [] h = cc
admins-replace org u u' (x ∷ users) h = elim (Bool-cases (x.id == u'.id)) [
  | inl e ↦ let same : x ≡ u = ground arith in rw (e, same) (omega arith)
  | inr e ↦ rw e (omega (arith, admins-replace org u u' users (ground arith)))
]

-- the others that the guard counts, and the user, are among the admins
other_admins-le : (org k : ℕ) (users : List User) → other_admins org k users ≤ admins org users
unfolding other_admins
other_admins-le org k [] = omega arith
other_admins-le org k (x ∷ users) = ground (arith, other_admins-le org k users)

pub other_admins-find :
    (org k : ℕ) (u : User) (users : List User)
    → find user_key k users ≡ some u
    → other_admins org k users + ones (is_active_admin org u) ≤ admins org users
unfolding find other_admins
other_admins-find org k u [] h = cc
other_admins-find org k u (x ∷ users) h = elim (Bool-cases (x.id == k)) [
  | inl e ↦
      let same : x ≡ u = ground arith in rw (e, same) (ground (arith, other_admins-le org k users))
  | inr e ↦ ground (arith, other_admins-find org k u users)
]

-- What an edit does to a row: it is still the organisation's, and where it was an active admin's and is one no
-- longer, there is another.
pub record Edited (org : ℕ) (users : List User) (u u' : User) : Type 0 where
  pub id : u'.id ≡ u.id
  pub of : u'.org_id ≡ u.org_id
  pub replaced :
      (is_admin u.role && u.is_active ≡ true)
      → (is_admin u'.role && u'.is_active ≡ false)
      → 0 < other_admins org u.id users

set_role-Edited :
    (org : ℕ) (users : List User) (r : Option (Option UserRole)) (u u' : User)
    → set_role org users r u ≡ ok u'
    → Edited org users u u'
unfolding set_role guard_last_admin is_admin
set_role-Edited org users none u u' h = record {
  id = ground arith;
  of = ground arith;
  replaced = λ a b. ground arith;
}
set_role-Edited org users (some none) u u' h = record {
  id = ground arith;
  of = ground arith;
  replaced = λ a b. ground arith;
}
set_role-Edited org users (some (some r)) u u' h = record {
  id = ground arith;
  of = ground arith;
  replaced = λ a b. ground arith;
}

set_active-Edited :
    (org : ℕ) (users : List User) (r : Option (Option Bool)) (u u' : User)
    → set_active org users r u ≡ ok u'
    → Edited org users u u'
unfolding set_active guard_last_admin
set_active-Edited org users none u u' h = record {
  id = ground arith;
  of = ground arith;
  replaced = λ a b. ground arith;
}
set_active-Edited org users (some none) u u' h = record {
  id = ground arith;
  of = ground arith;
  replaced = λ a b. ground arith;
}
set_active-Edited org users (some (some true)) u u' h = record {
  id = ground arith;
  of = ground arith;
  replaced = λ a b. ground arith;
}
set_active-Edited org users (some (some false)) u u' h = record {
  id = ground arith;
  of = ground arith;
  replaced = λ a b. ground arith;
}

set_full_name-Edited :
    (org : ℕ) (users : List User) (name : Option (Option Text)) (u : User)
    → Edited org users u (set_full_name name u)
unfolding set_full_name
set_full_name-Edited org users none u = record {
  id = refl;
  of = refl;
  replaced = λ a b. absurd (ground arith);
}
set_full_name-Edited org users (some n) u = record {
  id = refl;
  of = refl;
  replaced = λ a b. absurd (ground arith);
}

Edited-trans :
    (org : ℕ) (users : List User) (u v w : User)
    → Edited org users u v
    → Edited org users v w
    → Edited org users u w
Edited-trans org users u v w first second = record {
  id = second.id ∙ first.id;
  of = second.of ∙ first.of;
  replaced = λ was gone. elim (Bool-cases (is_admin v.role && v.is_active)) [
    | inl still ↦ rw (← first.id) (second.replaced still gone)
    | inr lost ↦ first.replaced was lost
  ];
}

-- what a successful edit wrote
pub updated_user-Edited :
    (org k acting : ℕ) (update : UserUpdate) (users : List User) (u' : User)
    → updated_user org k acting update users ≡ ok u'
    → (u : User) × (find user_key k users ≡ some u) × (u.org_id ≡ org) × Edited org users u u'
unfolding updated_user get_user
updated_user-Edited org k acting update users u' h = elim (Option-cases (find user_key k users)) [
  | inl absent ↦ absurd (ground arith)
  | inr (u, found) ↦
      let of : u.org_id ≡ org = ground arith in
      let named = set_full_name update.full_name u in
      elim (Result-cases (set_role org users update.role named)) [
        | inr (e, failed) ↦ absurd (ground arith)
        | inl (roled, ok_role) ↦
            let last : set_active org users update.is_active roled ≡ ok u' = ground arith in
            (
              u,
              found,
              of,
              Edited-trans org users u named u' (set_full_name-Edited org users update.full_name u)
                  (Edited-trans org users named roled u'
                    (set_role-Edited org users update.role named roled ok_role)
                    (set_active-Edited org users update.is_active roled u' last)),
            )
      ]
]
