-- ===== src/Users/Admins.antt =====
-- The active admins of an organisation through sequences of calls on app/modules/users/service.py.
use ai_interviewer.Base.{
  ℕ, ◌<◌, ◌≡◌, ◌∙◌, ap, some, List, [], ◌∷◌, arith, Result, ok, err, Bool-cases, Result-cases, inl,
  inr,
}
use ai_interviewer.Base.Rows.{find, replace, find-key}
use ai_interviewer.Base.Text.{Text}
use ai_interviewer.Users.{
  User, UserError, UserUpdate, user_key, create_user, other_admins, updated_user, update_user,
  deactivate_user, deactivation,
}
use ai_interviewer.Users.Edited.{
  is_active_admin, admins, admins-replace, other_admins-find, Edited, updated_user-Edited,
}

Edited-admins :
    (org k o : ℕ) (users : List User) (u u' : User)
    → find user_key k users ≡ some u
    → u.org_id ≡ org
    → Edited org users u u'
    → 0 < admins o users
    → 0 < admins o (replace user_key u' users)
Edited-admins org k o users u u' found of e some_there =
    let key = find-key user_key k u users found in
    let there : find user_key u'.id users ≡ some u =
      ap (λ n. find user_key n users) (e.id ∙ key) ∙ found in
    let counted = admins-replace o u u' users there in
    elim (Bool-cases (is_active_admin o u)) [
      | inr was_none ↦ ground (arith, counted)
      | inl was ↦ elim (Bool-cases (is_active_admin o u')) [
        | inl kept ↦ ground (arith, counted)
        | inr lost ↦
            let oo : o ≡ org = ground arith in
            let others : 0 < other_admins org u.id users =
              e.replaced (ground arith) (ground (arith, e.of)) in
            let le = other_admins-find org k u users found in ground (arith, counted)
      ]
    ]

-- a call on the users of some organisation; the case folding of the column is a parameter
pub data Call : Type 0 where
  creates : User → Call
  updates : (org k acting : ℕ) → UserUpdate → Call
  deactivates : (org k acting : ℕ) → Call

unfoldable pub call : (Text → Text) → Call → List User → Result UserError (List User)
call fold (creates u) users = create_user fold u users
call fold (updates org k acting update) users = update_user org k acting update users
call fold (deactivates org k acting) users = deactivate_user org k acting users

-- one after the other; a call that raises is rolled back
unfoldable pub calls : (Text → Text) → List Call → List User → List User
calls fold [] users = users
calls fold (c ∷ cs) users =
    calls fold cs (elim (call fold c users) [ ok users' ↦ users' | err _ ↦ users ])

update_user-admins :
    (org k acting o : ℕ) (update : UserUpdate) (users users' : List User)
    → update_user org k acting update users ≡ ok users'
    → 0 < admins o users
    → 0 < admins o users'
unfolding update_user
update_user-admins org k acting o update users users' h w =
    elim (Result-cases (updated_user org k acting update users)) [
      | inr (e, failed) ↦ absurd (ground arith)
      | inl (u', done) ↦
          let (u, found, of, edited) = updated_user-Edited org k acting update users u' done in
          let same : users' ≡ replace user_key u' users = ground arith in
          rw same (Edited-admins org k o users u u' found of edited w)
    ]

call-admins :
    (fold : Text → Text) (c : Call) (o : ℕ) (users users' : List User)
    → call fold c users ≡ ok users'
    → 0 < admins o users
    → 0 < admins o users'
unfolding call create_user deactivate_user
call-admins fold (creates u) o users users' h w =
    let same : users' ≡ u ∷ users = ground arith in rw same (omega arith)
call-admins fold (updates org k acting update) o users users' h w =
    update_user-admins org k acting o update users users' h w
call-admins fold (deactivates org k acting) o users users' h w =
    update_user-admins org k acting o deactivation users users' h w

-- Calls that come one after the other, whoever makes them and whatever they ask, leave every organisation that
-- had an active admin with one.
pub calls-admins :
    (fold : Text → Text) (cs : List Call) (o : ℕ) (users : List User)
    → 0 < admins o users
    → 0 < admins o (calls fold cs users)
unfolding calls
calls-admins fold [] o users w = w
calls-admins fold (c ∷ cs) o users w = elim (Result-cases (call fold c users)) [
  | inl (users', done) ↦
      rw (calls, done) (calls-admins fold cs o users' (call-admins fold c o users users' done w))
  | inr (e, failed) ↦ rw (calls, failed) (calls-admins fold cs o users w)
]
