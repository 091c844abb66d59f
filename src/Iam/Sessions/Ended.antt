-- ===== src/Iam/Sessions/Ended.antt =====
-- `logoutAll` as a whole.
use dhund_research_ai.L0.Tables.{find_row}
use dhund_research_ai.Iam.Sessions.Rows.{update_row-found}
use dhund_research_ai.Iam.Sessions.Logout.{
  wrong_user, store_after, bump, verify-ended, refresh-ended, verify-others,
}
use dhund_research_ai.Base.{
  refl, List, ◌≡◌, ok, some, Option-cases, inl, ok≢err, sym, inr, Bool-cases, str_eq, subst, eq_iff,
  ◌∙◌, ℕ, err, String, false,
}
use dhund_research_ai.Iam.Sessions.{
  check_session, verify, session_with_user, get_access_session, Claims, access_session, live_user,
  Store, UserRow, SessionRow, logout_all, logout_verified, logout_store, commit, session_revoked,
  FamilyRow, refresh, refresh_invalid,
}

user_of-session :
    (claims verified : Claims) (users : List UserRow) (session : SessionRow)
    → check_session claims (session_with_user users (some session)) ≡ ok verified
    → (user : UserRow) × (find_row (λ user. user.id) claims.sub users ≡ some user)
unfolding session_with_user live_user access_session check_session
user_of-session claims verified users session h =
    elim (Bool-cases (str_eq session.user_id claims.sub)) [
      | inl own ↦ elim (Option-cases (find_row (λ user. user.id) session.user_id users)) [
        | inl missing ↦ absurd (ok≢err (sym (rw missing at h)))
        | inr (user, found) ↦ (
          user,
          subst (λ id. find_row (λ user. user.id) id users ≡ some user)
              ((eq_iff session.user_id claims.sub).0 own) found,
        )
      ]
      | inr strange ↦ absurd (ok≢err (sym h ∙ wrong_user claims session _ strange))
    ]

verified-user :
    (claims verified : Claims) (s : Store)
    → verify claims s ≡ ok verified
    → (user : UserRow) × (find_row (λ user. user.id) claims.sub s.users ≡ some user)
unfolding verify get_access_session session_with_user check_session
verified-user claims verified s h =
    elim (Option-cases (find_row (λ session. session.id) claims.sid s.sessions)) [
      | inl missing ↦ absurd (ok≢err (sym (rw missing at h)))
      | inr (session, found) ↦ user_of-session claims verified s.users session (rw found at h)
    ]

-- A verified token logs its user out of everywhere: afterwards no token of that user is verified, no
-- refresh token of the user's families is accepted, and what is verified for others is unchanged.
pub logout_all-ends :
    (now : ℕ) (claims : Claims) (s : Store)
    → verify claims s ≡ ok claims
    → (after : Store) × (logout_all now claims s ≡ (ok tt, after))
      × ((c : Claims) → c.sub ≡ claims.sub → verify c after ≡ err session_revoked)
      × ((later : ℕ) (family_id hash next : String) (family : FamilyRow)
          → find_row (λ family. family.id) family_id s.families ≡ some family
          → family.user_id ≡ claims.sub
          → refresh later family_id hash next after ≡ (err refresh_invalid, after))
      × ((c : Claims) → str_eq c.sub claims.sub ≡ false → verify c after ≡ verify c s)
unfolding logout_all logout_verified logout_store commit
logout_all-ends now claims s verified =
    let user = claims.sub in
    let (row, found) = verified-user claims claims s verified in
    (
      store_after now user s,
      rw (verified, update_row-found (λ user. user.id) user (bump now user s) s.users row found)
          refl,
      verify-ended now user s,
      refresh-ended now user s,
      verify-others now user s,
    )
