-- ===== src/Iam/Sessions/Rotation.antt =====
-- The rotation of refresh tokens, and what a reused one leads to.
use dhund_research_ai.L0.Tables.{find_row, update_many, is_null, find_row-update_many}
use dhund_research_ai.Iam.Sessions.Rows.{update_row-found}
use dhund_research_ai.Base.{String, ◌≡◌, str_eq, ◌∙◌, some, none, eq_refl, refl, ℕ, ok}
use dhund_research_ai.Iam.Sessions.{
  FamilyRow, Store, UserRow, get_refresh_family, RefreshFamilyRecord, refresh_with,
  rotate_family_hash, family_with_user, family_record, commit, live_user, claims_of,
}

abbrev pub with_hash : String → FamilyRow → FamilyRow
with_hash hash family = record family { current_token_hash = hash }

abbrev pub rotated : String → String → Store → Store
rotated family_id next s = record s {
  families = update_many (λ family. str_eq family.id family_id) (with_hash next) s.families;
}

-- A family that can be refreshed: it and its user's account are live.
pub record IsLive (family : FamilyRow) (user : UserRow) (s : Store) : Type 0 where
  pub family_found : find_row (λ family. family.id) family.id s.families ≡ some family
  pub user_found : find_row (λ user. user.id) family.user_id s.users ≡ some user
  pub user_live : user.deleted_at ≡ none
  pub family_live : family.revoked_at ≡ none

abbrev pub record_of : FamilyRow → UserRow → RefreshFamilyRecord
record_of family user = record {
  family_id = family.id;
  user_id = family.user_id;
  session_id = family.session_id;
  current_token_hash = family.current_token_hash;
  revoked_at = family.revoked_at;
  user_session_version = user.session_version;
  org_id = user.org_id;
}

module _ (family : FamilyRow) (user : UserRow) (s : Store) (live : IsLive family user s) where
  pub get-live : get_refresh_family family.id s ≡ some (record_of family user)
  unfolding get_refresh_family family_with_user family_record live_user is_null
  get-live = rw (live.family_found, live.user_found, live.user_live) refl

  -- Writing a new hash succeeds whatever was read, and leaves the family live.
  pub refresh_with-rotates :
      (now : ℕ) (next : String)
      → refresh_with now family.current_token_hash next (some (record_of family user)) s
        ≡ (ok (claims_of (record_of family user)), rotated family.id next s)
  unfolding refresh_with rotate_family_hash commit is_null
  refresh_with-rotates now next =
      rw
        (
          live.family_live,
          eq_refl family.current_token_hash,
          update_row-found (λ family. family.id) family.id (with_hash next) s.families family
              live.family_found,
        )
        refl

  pub rotated-IsLive :
      (next : String) → IsLive (with_hash next family) user (rotated family.id next s)
  rotated-IsLive next = record {
    family_found =
        find_row-update_many (λ family. family.id) (λ f. str_eq f.id family.id) (with_hash next)
          (λ f. refl) family.id s.families
        ∙ rw (live.family_found, eq_refl family.id) refl;
    user_found = live.user_found;
    user_live = live.user_live;
    family_live = live.family_live;
  }
