-- ===== src/Iam/Sessions/Tests.antt =====
-- A user with one session, and another user's token.
use dhund_research_ai.L0.Tables.{find_row, is_null}
use dhund_research_ai.Iam.Sessions.Issue.{issue_session-works}
use dhund_research_ai.Iam.Sessions.Ended.{logout_all-ends}
use dhund_research_ai.Iam.Sessions.Reuse.{refresh_with-race, refresh-rotates}
use dhund_research_ai.Iam.Sessions.Rotation.{IsLive, record_of, rotated}
use dhund_research_ai.Base.{◌≡◌, ◌∷◌, none, some, ok, [], refl, err, ℕ, String, str_eq, false}
use dhund_research_ai.Iam.Sessions.{
  UserRow, Claims, FamilyRow, Store, SessionRow, RefreshFamilyRecord, verify, refresh,
  get_refresh_family, get_access_session, logout_all, session_with_user, refresh_with, claims_of,
  access_session, live_user, refresh_reuse_detected, session_revoked, check_session,
  refresh_invalid, issue_session,
}

abbrev user : UserRow
user = record { id = "u"; session_version = 1; deleted_at = none; org_id = some "o" }

abbrev session : SessionRow
session = record { id = "s"; user_id = "u"; revoked_at = none }

abbrev family : FamilyRow
family = record {
  id = "f";
  user_id = "u";
  session_id = "s";
  current_token_hash = "h1";
  revoked_at = none;
}

abbrev store : Store
store = record { users = user ∷ []; sessions = session ∷ []; families = family ∷ []; outbox = [] }

abbrev claims : Claims
claims = record { sub = "u"; sid = "s"; sv = 1 }

store-IsLive : IsLive family user store
unfolding find_row
store-IsLive = record {
  family_found = refl;
  user_found = refl;
  user_live = refl;
  family_live = refl;
}

session_found : find_row (λ session. session.id) "s" store.sessions ≡ some session
unfolding find_row
session_found = refl

store-verify : verify claims store ≡ ok claims
unfolding verify get_access_session session_with_user access_session live_user is_null check_session
    find_row
store-verify = refl

logout_all-ends_example :
    (after : Store) × (logout_all 7 claims store ≡ (ok tt, after))
    × ((c : Claims) → c.sub ≡ "u" → verify c after ≡ err session_revoked)
    × ((later : ℕ) (family_id hash next : String) (family : FamilyRow)
        → find_row (λ family. family.id) family_id store.families ≡ some family
        → family.user_id ≡ "u"
        → refresh later family_id hash next after ≡ (err refresh_invalid, after))
    × ((c : Claims) → str_eq c.sub "u" ≡ false → verify c after ≡ verify c store)
logout_all-ends_example = logout_all-ends 7 claims store store-verify

refresh-rotates_example :
    (after ended : Store) × (refresh 7 "f" "h1" "h2" store
      ≡ (ok (claims_of (record_of family user)), after))
    × (refresh 8 "f" "h2" "h3" after
        ≡ (ok (claims_of (record_of family user)), rotated "f" "h3" after))
    × (refresh 8 "f" "h1" "h3" after ≡ (err refresh_reuse_detected, ended))
    × ((time : ℕ) (hash fresh : String)
        → refresh time "f" hash fresh ended ≡ (err refresh_invalid, ended))
    × ((c : Claims) → c.sid ≡ "s" → verify c ended ≡ err session_revoked)
refresh-rotates_example =
    refresh-rotates family user session store store-IsLive session_found 7 8 "h2" "h3" refl

refresh_with-race_example :
    (family_read : RefreshFamilyRecord) × (middle after ended : Store) × (get_refresh_family "f"
        store
      ≡ some family_read)
    × (refresh_with 7 "h1" "h2" (some family_read) store ≡ (ok (claims_of family_read), middle))
    × (refresh_with 7 "h1" "h3" (some family_read) middle ≡ (ok (claims_of family_read), after))
    × (refresh 8 "f" "h2" "h4" after ≡ (err refresh_reuse_detected, ended))
    × ((c : Claims) → c.sid ≡ "s" → verify c ended ≡ err session_revoked)
refresh_with-race_example =
    refresh_with-race family user session store store-IsLive session_found 7 8 "h2" "h3" "h4" refl

issue_session-works_example :
    (claims : Claims) × (after : Store) × (issue_session "s2" "f2" "h" user store
      ≡ (ok claims, after))
    × (verify claims after ≡ ok claims)
    × ((now : ℕ) (next : String)
        → (renewed : Store) × (refresh now "f2" "h" next after ≡ (ok claims, renewed)))
unfolding find_row is_null
issue_session-works_example = issue_session-works "s2" "f2" "h" user store refl refl refl refl refl
