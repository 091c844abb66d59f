-- ===== src/Platform/Errors/Registry.antt =====
-- What a client can tell from an error's code, status and message.
use dhund_research_ai.Base.{
  ◌≤◌, ◌<◌, ◌≡◌, ◌≢◌, ◌↔◌, refl, sym, subst, ◌∙◌, true, String, arith, any_sound, str_eq, eq_iff,
}
use dhund_research_ai.Platform.Errors.{
  ErrorCode, malformed_request, unauthenticated, invalid_credentials, mfa_required, mfa_invalid,
  mfa_recovery_invalid, token_invalid, refresh_invalid, refresh_reuse_detected, session_revoked,
  code_text, error_codes, http_status_for, client_message_for, is_error_code,
}

status_bounds : (c : ErrorCode) → (400 ≤ http_status_for c) × (http_status_for c < 600)
unfolding http_status_for
status_bounds malformed_request = omega arith
status_bounds _ = omega arith

unauthenticated_message :
    (c : ErrorCode)
    → http_status_for c ≡ 401
    → c ≢ mfa_required
    → client_message_for c ≡ client_message_for unauthenticated
unfolding http_status_for client_message_for
unauthenticated_message unauthenticated h n = refl
unauthenticated_message invalid_credentials h n = refl
unauthenticated_message mfa_required h n = absurd (n refl)
unauthenticated_message mfa_invalid h n = refl
unauthenticated_message mfa_recovery_invalid h n = refl
unauthenticated_message token_invalid h n = refl
unauthenticated_message refresh_invalid h n = refl
unauthenticated_message refresh_reuse_detected h n = refl
unauthenticated_message session_revoked h n = refl
unauthenticated_message _ h n = absurd (omega arith)

-- Two codes that answer 401 send the same message unless one of them is mfa_required: the message
-- does not tell a wrong password from a bad token, a reused refresh token or a revoked session.
pub unauthenticated_alike :
    (c d : ErrorCode)
    → http_status_for c ≡ 401
    → http_status_for d ≡ 401
    → c ≢ mfa_required
    → d ≢ mfa_required
    → client_message_for c ≡ client_message_for d
unauthenticated_alike c d h k n m =
    unauthenticated_message c h n ∙ sym (unauthenticated_message d k m)

is_error_code_text : (c : ErrorCode) → is_error_code (code_text c) ≡ true
unfolding is_error_code
is_error_code_text malformed_request = refl
is_error_code_text _ = refl

-- A string is accepted as an error code exactly when it is the text of one of the codes.
pub is_error_code_iff :
    (s : String) → (is_error_code s ≡ true) ↔ ((c : ErrorCode) × (s ≡ code_text c))
unfolding is_error_code
is_error_code_iff s = (
  λ h. let (c, e) = any_sound (λ c. str_eq s (code_text c)) error_codes h in (c, (eq_iff _ _).0 e),
  λ (c, e). subst (λ t. is_error_code t ≡ true) (sym e) (is_error_code_text c),
)
