-- ===== src/Iam/Sessions.antt =====
-- src/iam/auth/auth.service.ts and the checks of src/iam/tokens/access-token.service.ts, over the
-- tables that src/l0/adapters/prisma/prisma-session.adapter.ts reads and writes. A table is a list of
-- rows; a row that is updated must be there, or the transaction fails and changes nothing. An access
-- token is its claims, after the signature has been checked; a refresh token is the family's id and
-- the hash of the token; ids, hashes and clock readings are arguments. Metrics are left out.
pub mod Rows
pub mod Logout
pub mod Ended
pub mod Rotation
pub mod Reuse
pub mod Issue
mod Tests
use dhund_research_ai.L0.Tables.{update_many, find_row, is_null}
use dhund_research_ai.Base.{
  ℕ, Option, String, List, Bool, Result, none, ◌>>=◌, suc, if◌then◌else◌, find, err, some, true,
  map, ok, str_eq, ◌++◌, any, filter, false, not, [], ◌&&◌, ◌∷◌, ◌==◌,
}

pub data IamError : Type 0 where
  invalid_credentials token_invalid session_revoked refresh_invalid refresh_reuse_detected :
      IamError
  l0_operation_error : IamError

pub record UserRow : Type 0 where
  pub id : String
  pub session_version : ℕ
  pub deleted_at : Option ℕ
  -- The personal organization, or that of the first membership.
  pub org_id : Option String

pub record SessionRow : Type 0 where
  pub id : String
  pub user_id : String
  pub revoked_at : Option ℕ

pub record FamilyRow : Type 0 where
  pub id : String
  pub user_id : String
  pub session_id : String
  pub current_token_hash : String
  pub revoked_at : Option ℕ

pub data OutboxEvent : Type 0 where
  session_created family_revoked : String → OutboxEvent
  session_revoked_event : String → OutboxEvent

pub record Store : Type 0 where
  pub users : List UserRow
  pub sessions : List SessionRow
  pub families : List FamilyRow
  pub outbox : List OutboxEvent

-- `sub`, `sid` and `sv` of an access token.
pub record Claims : Type 0 where
  pub sub : String
  pub sid : String
  pub sv : ℕ

-- `update` by id, of a row that must be there.
unfoldable pub update_row {ℓ} :
    {A : Type ℓ} → (A → String) → String → (A → A) → List A → Result IamError (List A)
update_row key id change rows =
    if any (λ row. str_eq (key row) id) rows
    then ok (update_many (λ row. str_eq (key row) id) change rows)
    else err l0_operation_error

unfoldable pub live_user : Option UserRow → Option UserRow
live_user none = none
live_user (some user) = if is_null user.deleted_at then some user else none

pub record AccessSession : Type 0 where
  pub user_id : String
  pub revoked_at : Option ℕ
  pub user_session_version : ℕ

unfoldable pub access_session : SessionRow → Option UserRow → Option AccessSession
access_session session none = none
access_session session (some user) = some record {
  user_id = session.user_id;
  revoked_at = session.revoked_at;
  user_session_version = user.session_version;
}

unfoldable pub session_with_user : List UserRow → Option SessionRow → Option AccessSession
session_with_user users none = none
session_with_user users (some session) =
    access_session session (live_user (find_row (λ user. user.id) session.user_id users))

unfoldable pub get_access_session : String → Store → Option AccessSession
get_access_session session_id s =
    session_with_user s.users (find_row (λ session. session.id) session_id s.sessions)

unfoldable pub check_session : Claims → Option AccessSession → Result IamError Claims
check_session claims none = err session_revoked
check_session claims (some session) =
    if not (str_eq session.user_id claims.sub)
    then err session_revoked
    else if not (is_null session.revoked_at)
    then err session_revoked
    else if claims.sv == session.user_session_version
    then ok claims
    else err token_invalid

-- `verify`, after the signature.
unfoldable pub verify : Claims → Store → Result IamError Claims
verify claims s = check_session claims (get_access_session claims.sid s)

pub record RefreshFamilyRecord : Type 0 where
  pub family_id : String
  pub user_id : String
  pub session_id : String
  pub current_token_hash : String
  pub revoked_at : Option ℕ
  pub user_session_version : ℕ
  pub org_id : Option String

unfoldable pub family_record : FamilyRow → Option UserRow → Option RefreshFamilyRecord
family_record family none = none
family_record family (some user) = some record {
  family_id = family.id;
  user_id = family.user_id;
  session_id = family.session_id;
  current_token_hash = family.current_token_hash;
  revoked_at = family.revoked_at;
  user_session_version = user.session_version;
  org_id = user.org_id;
}

unfoldable pub family_with_user : List UserRow → Option FamilyRow → Option RefreshFamilyRecord
family_with_user users none = none
family_with_user users (some family) =
    family_record family (live_user (find_row (λ user. user.id) family.user_id users))

unfoldable pub get_refresh_family : String → Store → Option RefreshFamilyRecord
get_refresh_family family_id s =
    family_with_user s.users (find_row (λ family. family.id) family_id s.families)

-- A transaction commits its store, or leaves the old one.
unfoldable pub commit {ℓ} :
    {A : Type ℓ} → Result IamError A → Result IamError Store → Store → Result IamError A × Store
commit answer (ok next) s = (answer, next)
commit answer (err e) s = (err e, s)

unfoldable pub revoke_family_and_session : ℕ → String → String → Store → Result IamError Store
revoke_family_and_session now family_id session_id s =
    update_row (λ family. family.id) family_id (λ family. record family { revoked_at = some now })
      s.families
    >>= λ families.
        update_row (λ session. session.id) session_id
          (λ session. record session { revoked_at = some now }) s.sessions
        >>= λ sessions. ok record s { families = families; sessions = sessions }

unfoldable pub reuse_events : RefreshFamilyRecord → List OutboxEvent
reuse_events family =
    if is_null family.org_id
    then []
    else family_revoked family.family_id ∷ session_revoked_event family.session_id ∷ []

unfoldable pub revoke_for_reuse : ℕ → RefreshFamilyRecord → Store → Result IamError Store
revoke_for_reuse now family s =
    revoke_family_and_session now family.family_id family.session_id s >>= λ s.
    ok record s { outbox = s.outbox ++ reuse_events family }

unfoldable pub rotate_family_hash : String → String → Store → Result IamError Store
rotate_family_hash family_id new_hash s =
    update_row (λ family. family.id) family_id
      (λ family. record family { current_token_hash = new_hash }) s.families
    >>= λ families. ok record s { families = families }

unfoldable pub claims_of : RefreshFamilyRecord → Claims
claims_of family = record {
  sub = family.user_id;
  sid = family.session_id;
  sv = family.user_session_version;
}

-- `refresh` after the read of the family, which is outside the transaction that writes.
unfoldable pub refresh_with :
    ℕ → String → String → Option RefreshFamilyRecord → Store → Result IamError Claims × Store
refresh_with now presented_hash next_hash none s = (err refresh_invalid, s)
refresh_with now presented_hash next_hash (some family) s =
    let reused = commit (err refresh_reuse_detected) (revoke_for_reuse now family s) s in
    let rotated =
      commit (ok (claims_of family)) (rotate_family_hash family.family_id next_hash s) s in
    if not (is_null family.revoked_at)
    then (err refresh_invalid, s)
    else if str_eq family.current_token_hash presented_hash
    then rotated
    else reused

unfoldable pub refresh : ℕ → String → String → String → Store → Result IamError Claims × Store
refresh now family_id presented_hash next_hash s =
    refresh_with now presented_hash next_hash (get_refresh_family family_id s) s

-- `logoutAll` of the adapter: the ids of the sessions it revokes come first.
unfoldable pub logout_sessions : String → Store → List String
logout_sessions user_id s =
    map (λ session. session.id)
      (filter (λ session. str_eq session.user_id user_id && is_null session.revoked_at) s.sessions)

unfoldable pub logout_store : ℕ → String → Store → Result IamError Store
logout_store now user_id s =
    update_row (λ user. user.id) user_id
      (λ user. record user { session_version = suc user.session_version }) s.users
    >>= λ users. ok record s {
      users = users;
      sessions =
          update_many (λ session. str_eq session.user_id user_id && is_null session.revoked_at)
            (λ session. record session { revoked_at = some now }) s.sessions;
      families =
          update_many (λ family. str_eq family.user_id user_id && is_null family.revoked_at)
            (λ family. record family { revoked_at = some now }) s.families;
    }

unfoldable pub org_of : Option UserRow → Option String
org_of none = none
org_of (some user) = user.org_id

unfoldable pub logout_events : String → Store → List OutboxEvent
logout_events user_id s =
    if is_null (org_of (find_row (λ user. user.id) user_id s.users))
    then []
    else map session_revoked_event (logout_sessions user_id s)

-- The body of `logoutAll`, for a verified token.
unfoldable pub logout_verified :
    ℕ → Result IamError Claims → Store → Result IamError (Unit {0}) × Store
logout_verified now (err e) s = (err e, s)
logout_verified now (ok verified) s =
    commit (ok tt)
      (logout_store now verified.sub s >>= λ next.
        ok record next { outbox = next.outbox ++ logout_events verified.sub s })
      s

unfoldable pub logout_all : ℕ → Claims → Store → Result IamError (Unit {0}) × Store
logout_all now claims s = logout_verified now (verify claims s) s

-- `issueSession`, with the ids and the hash that it generates.
unfoldable pub issue_session :
    String → String → String → UserRow → Store → Result IamError Claims × Store
issue_session session_id family_id token_hash user s =
    let session : SessionRow = record { id = session_id; user_id = user.id; revoked_at = none } in
    let family : FamilyRow = record {
      id = family_id;
      user_id = user.id;
      session_id = session_id;
      current_token_hash = token_hash;
      revoked_at = none;
    } in
    if is_null user.org_id then (err invalid_credentials, s) else (
      ok record { sub = user.id; sid = session_id; sv = user.session_version },
      record s {
        sessions = s.sessions ++ (session ∷ []);
        families = s.families ++ (family ∷ []);
        outbox = s.outbox ++ (session_created session_id ∷ []);
      },
    )
