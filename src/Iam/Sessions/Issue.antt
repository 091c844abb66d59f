-- ===== src/Iam/Sessions/Issue.antt =====
-- A session that is issued.
use dhund_research_ai.L0.Tables.{is_null, find_row}
use dhund_research_ai.Iam.Sessions.Reuse.{refresh-live}
use dhund_research_ai.Iam.Sessions.Rotation.{IsLive, rotated}
use dhund_research_ai.Base.{
  String, List, ◌≡◌, none, some, ◌++◌, false, ◌∷◌, [], ok, eq_refl, ℕ, Bool-cases, arith, eq_iff,
  str_eq, inl, inr, refl,
}
use dhund_research_ai.Iam.Sessions.{
  verify, issue_session, get_access_session, claims_of, session_with_user, UserRow, access_session,
  Store, live_user, check_session, Claims, SessionRow, refresh, FamilyRow, session_created,
}

find_row-append {ℓ} :
    {A : Type ℓ} (key : A → String) (rows : List A) (row : A)
    → find_row key (key row) rows ≡ none
    → find_row key (key row) (rows ++ (row ∷ [])) ≡ some row
unfolding find_row
find_row-append key [] row missing = rw (eq_refl (key row)) refl
find_row-append key (first ∷ rows) row missing = elim (Bool-cases (str_eq (key first) (key row))) [
  | inl same ↦ let taken : some first ≡ none = rw same at missing in cc
  | inr other ↦ rw other (find_row-append key rows row (rw other at missing))
]

-- A token of a live session and user is verified.
verify-new :
    (claims : Claims) (session : SessionRow) (user : UserRow) (s : Store)
    → find_row (λ session. session.id) claims.sid s.sessions ≡ some session
    → find_row (λ user. user.id) session.user_id s.users ≡ some user
    → user.deleted_at ≡ none
    → session.user_id ≡ claims.sub
    → session.revoked_at ≡ none
    → claims.sv ≡ user.session_version
    → verify claims s ≡ ok claims
unfolding verify get_access_session session_with_user access_session live_user is_null check_session
verify-new claims session user s session_found user_found alive own live version =
    rw (session_found, user_found, alive, live)
      (ground (arith, (eq_iff session.user_id claims.sub).1 own, version))

-- For a live user with an organization and new ids, the issue succeeds. Afterwards its access token
-- is verified, and its refresh token can be exchanged for another.
pub issue_session-works :
    (session_id family_id hash : String) (user : UserRow) (s : Store)
    → find_row (λ user. user.id) user.id s.users ≡ some user
    → user.deleted_at ≡ none
    → is_null user.org_id ≡ false
    → find_row (λ session. session.id) session_id s.sessions ≡ none
    → find_row (λ family. family.id) family_id s.families ≡ none
    → (claims : Claims) × (after : Store) × (issue_session session_id family_id hash user s
        ≡ (ok claims, after))
      × (verify claims after ≡ ok claims)
      × ((now : ℕ) (next : String)
          → (renewed : Store) × (refresh now family_id hash next after ≡ (ok claims, renewed)))
unfolding issue_session claims_of
issue_session-works session_id family_id hash user s found alive org new_session new_family =
    let session : SessionRow = record { id = session_id; user_id = user.id; revoked_at = none } in
    let family : FamilyRow = record {
      id = family_id;
      user_id = user.id;
      session_id = session_id;
      current_token_hash = hash;
      revoked_at = none;
    } in
    let claims : Claims = record { sub = user.id; sid = session_id; sv = user.session_version } in
    let after : Store = record s {
      sessions = s.sessions ++ (session ∷ []);
      families = s.families ++ (family ∷ []);
      outbox = s.outbox ++ (session_created session_id ∷ []);
    } in
    let live : IsLive family user after = record {
      family_found = find_row-append (λ family. family.id) s.families family new_family;
      user_found = found;
      user_live = alive;
      family_live = refl;
    } in
    (
      claims,
      after,
      rw org refl,
      verify-new claims session user after
          (find_row-append (λ session. session.id) s.sessions session new_session) found alive refl
          refl refl,
      λ now next. (rotated family_id next after, refresh-live family user after live now next),
    )
