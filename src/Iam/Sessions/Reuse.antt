-- ===== src/Iam/Sessions/Reuse.antt =====
-- A refresh token that is presented again, and two clients that refresh at the same time.
use dhund_research_ai.L0.Tables.{is_null, find_row, update_many, find_row-update_many, find_row-key}
use dhund_research_ai.Iam.Sessions.Rows.{update_row-found}
use dhund_research_ai.Base.{
  ◌≡◌, some, ℕ, str_eq, ◌++◌, String, false, err, eq_refl, refl, ok, Option, arith, none,
}
use dhund_research_ai.Iam.Sessions.Rotation.{
  IsLive, record_of, get-live, rotated, refresh_with-rotates, with_hash, rotated-IsLive,
}
use dhund_research_ai.Iam.Sessions.{
  FamilyRow, UserRow, SessionRow, Store, verify, refresh, refresh_with, get_access_session,
  get_refresh_family, session_with_user, family_with_user, revoke_for_reuse, check_session,
  revoke_family_and_session, family_record, live_user, commit, reuse_events, access_session, Claims,
  refresh_invalid, refresh_reuse_detected, session_revoked, RefreshFamilyRecord, claims_of,
  rotate_family_hash,
}

dead_session :
    (c : Claims) (session : SessionRow) (time : ℕ) (user : Option UserRow)
    → session.revoked_at ≡ some time
    → check_session c (access_session session user) ≡ err session_revoked
unfolding check_session access_session is_null
dead_session c session time none dead = refl
dead_session c session time (some user) dead = rw dead (ground arith)

module _ (family : FamilyRow) (user : UserRow) (session : SessionRow) (s : Store)
    (live : IsLive family user s)
    (session_found : find_row (λ session. session.id) family.session_id s.sessions
      ≡ some session) where
  abbrev end_family : ℕ → FamilyRow → FamilyRow
  end_family now family = record family { revoked_at = some now }

  abbrev end_session : ℕ → SessionRow → SessionRow
  end_session now session = record session { revoked_at = some now }

  abbrev revoked : ℕ → Store
  revoked now = record s {
    families = update_many (λ f. str_eq f.id family.id) (end_family now) s.families;
    sessions =
        update_many (λ session. str_eq session.id family.session_id) (end_session now) s.sessions;
    outbox = s.outbox ++ reuse_events (record_of family user);
  }

  refresh-revokes :
      (now : ℕ) (hash next : String)
      → str_eq family.current_token_hash hash ≡ false
      → refresh now family.id hash next s ≡ (err refresh_reuse_detected, revoked now)
  unfolding refresh refresh_with revoke_for_reuse revoke_family_and_session commit is_null
  refresh-revokes now hash next other =
      rw
        (
          get-live family user s live,
          live.family_live,
          other,
          update_row-found (λ family. family.id) family.id (end_family now) s.families family
              live.family_found,
          update_row-found (λ session. session.id) family.session_id (end_session now) s.sessions
              session session_found,
        )
        refl

  revoked-refresh :
      (now later : ℕ) (hash next : String)
      → refresh later family.id hash next (revoked now) ≡ (err refresh_invalid, revoked now)
  unfolding refresh get_refresh_family family_with_user family_record live_user is_null refresh_with
  revoked-refresh now later hash next =
      rw
        (
          find_row-update_many (λ family. family.id) (λ f. str_eq f.id family.id) (end_family now)
              (λ f. refl) family.id s.families,
          live.family_found,
          eq_refl family.id,
          live.user_found,
          live.user_live,
        )
        refl

  revoked-verify :
      (now : ℕ) (c : Claims)
      → c.sid ≡ family.session_id
      → verify c (revoked now) ≡ err session_revoked
  unfolding verify get_access_session session_with_user check_session access_session is_null
  revoked-verify now c e =
      rw
        (
          e,
          find_row-update_many (λ session. session.id) (λ x. str_eq x.id family.session_id)
              (end_session now) (λ x. refl) family.session_id s.sessions,
          session_found,
          find_row-key (λ session. session.id) family.session_id s.sessions session session_found,
          eq_refl family.session_id,
        )
        (dead_session _ (end_session now session) now _ refl)

-- The same for the family with its next hash.
module _ (family : FamilyRow) (user : UserRow) (s : Store) (live : IsLive family user s) where
  pub refresh-live :
      (now : ℕ) (next : String)
      → refresh now family.id family.current_token_hash next s
        ≡ (ok (claims_of (record_of family user)), rotated family.id next s)
  unfolding refresh
  refresh-live now next =
      rw (get-live family user s live) (refresh_with-rotates family user s live now next)

module _ (family : FamilyRow) (user : UserRow) (session : SessionRow) (s : Store)
    (live : IsLive family user s)
    (session_found : find_row (λ session. session.id) family.session_id s.sessions
      ≡ some session) where
  -- A family of a live user refreshes with its current token. It keeps working with the new one
  -- only: the old token is then taken for reuse, after which no token of the family is accepted and
  -- no access token of its session is verified.
  pub refresh-rotates :
      (now later : ℕ) (next another : String)
      → str_eq next family.current_token_hash ≡ false
      → (after ended : Store) × (refresh now family.id family.current_token_hash next s
          ≡ (ok (claims_of (record_of family user)), after))
        × (refresh later family.id next another after
            ≡ (ok (claims_of (record_of family user)), rotated family.id another after))
        × (refresh later family.id family.current_token_hash another after
            ≡ (err refresh_reuse_detected, ended))
        × ((time : ℕ) (hash fresh : String)
            → refresh time family.id hash fresh ended ≡ (err refresh_invalid, ended))
        × ((c : Claims) → c.sid ≡ family.session_id → verify c ended ≡ err session_revoked)
  unfolding claims_of
  refresh-rotates now later next another fresh =
      let after = rotated family.id next s in
      let next_family = with_hash next family in
      let next_live = rotated-IsLive family user s live next in
      (
        after,
        revoked next_family user session after next_live session_found later,
        refresh-live family user s live now next,
        refresh-live next_family user after next_live later another,
        refresh-revokes next_family user session after next_live session_found later
            family.current_token_hash another fresh,
        λ time hash new.
            revoked-refresh next_family user session after next_live session_found later time hash
              new,
        revoked-verify next_family user session after next_live session_found later,
      )

  -- The write does not look at the hash that the family has by then.
  refresh_with-stale :
      {hash : String} (t : Store)
      → IsLive (with_hash hash family) user t
      → (now : ℕ) (next : String)
      → refresh_with now family.current_token_hash next (some (record_of family user)) t
        ≡ (ok (claims_of (record_of family user)), rotated family.id next t)
  unfolding refresh_with rotate_family_hash commit is_null
  refresh_with-stale {hash} t written now next =
      rw
        (
          live.family_live,
          eq_refl family.current_token_hash,
          update_row-found (λ family. family.id) family.id (with_hash next) t.families
              (with_hash hash family) written.family_found,
        )
        refl

  -- Two clients that both read a live family before either writes both refresh it with the same
  -- token. The token that the first of them gets is out of date at once: using it is taken for
  -- reuse, and ends the session for both.
  pub refresh_with-race :
      (now later : ℕ) (first second another : String)
      → str_eq second first ≡ false
      → (family_read : RefreshFamilyRecord) × (middle after ended : Store) × (get_refresh_family
            family.id s
          ≡ some family_read)
        × (refresh_with now family.current_token_hash first (some family_read) s
            ≡ (ok (claims_of family_read), middle))
        × (refresh_with now family.current_token_hash second (some family_read) middle
            ≡ (ok (claims_of family_read), after))
        × (refresh later family.id first another after ≡ (err refresh_reuse_detected, ended))
        × ((c : Claims) → c.sid ≡ family.session_id → verify c ended ≡ err session_revoked)
  refresh_with-race now later first second another differ =
      let middle = rotated family.id first s in
      let first_live = rotated-IsLive family user s live first in
      let last_family = with_hash second (with_hash first family) in
      let after = rotated family.id second middle in
      let last_live = rotated-IsLive (with_hash first family) user middle first_live second in
      (
        record_of family user,
        middle,
        after,
        revoked last_family user session after last_live session_found later,
        get-live family user s live,
        refresh_with-rotates family user s live now first,
        refresh_with-stale middle first_live now second,
        refresh-revokes last_family user session after last_live session_found later first another
            differ,
        revoked-verify last_family user session after last_live session_found later,
      )
