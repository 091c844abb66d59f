-- ===== src/Iam/Sessions/Logout.antt =====
-- What `logoutAll` leaves of a user's sessions.
use dhund_research_ai.L0.Tables.{
  find_row, is_null, update_many, find_row-update_many, changed, find_row-key,
}
use dhund_research_ai.Iam.Sessions.{
  Store, UserRow, verify, SessionRow, check_session, FamilyRow, access_session, get_access_session,
  logout_events, session_with_user, Claims, session_revoked, refresh, refresh_with,
  get_refresh_family, family_record, family_with_user, refresh_invalid,
}
use dhund_research_ai.Base.{
  ℕ, String, List, str_eq, some, suc, Bool, ◌++◌, ◌&&◌, ◌≡◌, Option, err, Bool-cases, inl,
  Option-cases, arith, inr, refl, none, false, subst, sym, eq_iff, ◌∙◌, true,
}

pub wrong_user :
    (claims : Claims) (session : SessionRow) (user : Option UserRow)
    → str_eq session.user_id claims.sub ≡ false
    → check_session claims (access_session session user) ≡ err session_revoked
unfolding check_session access_session
wrong_user claims session none other = refl
wrong_user claims session (some user) other = rw other refl

module _ (now : ℕ) (user_id : String) (s : Store) where
  -- The tables after the updates.
  abbrev pub bump : UserRow → UserRow
  bump user = record user { session_version = suc user.session_version }

  abbrev pub open_session : SessionRow → Bool
  open_session session = str_eq session.user_id user_id && is_null session.revoked_at

  abbrev pub end_session : SessionRow → SessionRow
  end_session session = record session { revoked_at = some now }

  abbrev pub open_family : FamilyRow → Bool
  open_family family = str_eq family.user_id user_id && is_null family.revoked_at

  abbrev pub end_family : FamilyRow → FamilyRow
  end_family family = record family { revoked_at = some now }

  abbrev pub users_after : List UserRow
  users_after = update_many (λ user. str_eq user.id user_id) bump s.users

  abbrev pub store_after : Store
  store_after = record {
    users = users_after;
    sessions = update_many open_session end_session s.sessions;
    families = update_many open_family end_family s.families;
    outbox = s.outbox ++ logout_events user_id s;
  }

  ended-sessions :
      (claims : Claims) (session : SessionRow) (user : Option UserRow)
      → claims.sub ≡ user_id
      → check_session claims (access_session (changed open_session end_session session) user)
        ≡ err session_revoked
  unfolding check_session access_session is_null
  ended-sessions claims session none e = refl
  ended-sessions claims session (some user) e = elim (Bool-cases (str_eq session.user_id user_id)) [
    | inl own ↦ elim (Bool-cases (is_null session.revoked_at)) [
      | inl live ↦ rw (own, live, e) (ground (arith, own))
      | inr dead ↦ rw (own, dead, e) (ground (arith, own, dead))
    ]
    | inr other ↦ rw (other, e) (ground (arith, other))
  ]

  pub verify-ended :
      (claims : Claims) → claims.sub ≡ user_id → verify claims store_after ≡ err session_revoked
  unfolding verify get_access_session session_with_user check_session
  verify-ended claims e =
      rw
        (find_row-update_many (λ session. session.id) open_session end_session (λ session. refl)
          claims.sid s.sessions)
        (elim (Option-cases (find_row (λ session. session.id) claims.sid s.sessions)) [
          | inl missing ↦ rw missing refl
          | inr (session, found) ↦ rw found (ended-sessions claims session _ e)
        ])

  user-untouched :
      (id : String)
      → str_eq id user_id ≡ false
      → find_row (λ user. user.id) id users_after ≡ find_row (λ user. user.id) id s.users
  user-untouched id other =
      rw
        (find_row-update_many (λ user. user.id) (λ user. str_eq user.id user_id) bump (λ user. refl)
          id s.users)
        (elim (Option-cases (find_row (λ user. user.id) id s.users)) [
          | inl missing ↦ rw missing refl
          | inr (user, found) ↦
              let same : str_eq user.id user_id ≡ false =
                subst (λ z. str_eq z user_id ≡ false)
                  (sym (find_row-key (λ user. user.id) id s.users user found)) other in
              rw (found, same) refl
        ])

  others-session :
      (claims : Claims) (session : SessionRow)
      → str_eq claims.sub user_id ≡ false
      → check_session claims
          (session_with_user users_after (some (changed open_session end_session session)))
        ≡ check_session claims (session_with_user s.users (some session))
  unfolding session_with_user
  others-session claims session other = elim (Bool-cases (str_eq session.user_id claims.sub)) [
    | inl own ↦
        let apart : str_eq session.user_id user_id ≡ false =
          subst (λ z. str_eq z user_id ≡ false) (sym ((eq_iff session.user_id claims.sub).0 own))
            other in
        rw (apart, user-untouched session.user_id apart) refl
    | inr strange ↦ elim (Bool-cases (open_session session)) [
      | inl live ↦ rw live (
          wrong_user claims (end_session session) _ strange
          ∙ sym (wrong_user claims session _ strange))
      | inr dead ↦
          rw dead (wrong_user claims session _ strange ∙ sym (wrong_user claims session _ strange))
    ]
  ]

  pub verify-others :
      (claims : Claims)
      → str_eq claims.sub user_id ≡ false
      → verify claims store_after ≡ verify claims s
  unfolding verify get_access_session session_with_user
  verify-others claims other =
      rw
        (find_row-update_many (λ session. session.id) open_session end_session (λ session. refl)
          claims.sid s.sessions)
        (elim (Option-cases (find_row (λ session. session.id) claims.sid s.sessions)) [
          | inl missing ↦ rw missing refl
          | inr (session, found) ↦ rw found (others-session claims session other)
        ])

  ended-family :
      (later : ℕ) (hash next : String) (family : FamilyRow) (user : Option UserRow)
      → str_eq family.user_id user_id ≡ true
      → refresh_with later hash next
          (family_record (changed open_family end_family family) user)
          store_after
        ≡ (err refresh_invalid, store_after)
  unfolding refresh_with family_record is_null
  ended-family later hash next family none own = refl
  ended-family later hash next family (some user) own = elim (Option-cases family.revoked_at) [
    | inl live ↦ rw (own, live) refl
    | inr (time, dead) ↦ rw (own, dead) refl
  ]

  pub refresh-ended :
      (later : ℕ) (family_id hash next : String) (family : FamilyRow)
      → find_row (λ family. family.id) family_id s.families ≡ some family
      → family.user_id ≡ user_id
      → refresh later family_id hash next store_after ≡ (err refresh_invalid, store_after)
  unfolding refresh get_refresh_family family_with_user
  refresh-ended later family_id hash next family found own =
      rw
        (
          find_row-update_many (λ family. family.id) open_family end_family (λ family. refl)
              family_id s.families,
          found,
        )
        (ended-family later hash next family _ ((eq_iff family.user_id user_id).1 own))
