-- ===== src/Auth/Errors.antt =====
-- src/auth/errors, and the state monad of the service: a call changes the world and returns or
-- throws, and what it changed before a throw stays changed.
use luoluo_auth.Common.{ℕ}

pub data AuthErrorCode : Type 0 where
  success token_expired token_invalid session_not_found session_expired : AuthErrorCode
  login_rate_limited oauth2_rate_limited login_concurrent_limit : AuthErrorCode
  fingerprint_mismatch multi_account_switch_disabled multi_account_limit_exceeded : AuthErrorCode
  multi_account_target_not_found user_banned unauthorized forbidden : AuthErrorCode
  safe_auth_required oauth2_invalid_client oauth2_invalid_grant : AuthErrorCode
  oauth2_invalid_refresh_token oauth2_refresh_token_reuse oauth2_redirect_uri_mismatch :
      AuthErrorCode
  signature_invalid signature_timestamp_invalid bad_request missing_parameter : AuthErrorCode
  internal_error : AuthErrorCode

-- The number of each member of the enum.
unfoldable pub number : AuthErrorCode → ℕ
number success = 1000
number token_expired = 1001
number token_invalid = 1002
number session_not_found = 1003
number session_expired = 1004
number login_rate_limited = 1010
number oauth2_rate_limited = 1011
number login_concurrent_limit = 1012
number fingerprint_mismatch = 1020
number multi_account_switch_disabled = 1021
number multi_account_limit_exceeded = 1022
number multi_account_target_not_found = 1023
number user_banned = 1030
number unauthorized = 1100
number forbidden = 1101
number safe_auth_required = 1102
number oauth2_invalid_client = 1200
number oauth2_invalid_grant = 1201
number oauth2_invalid_refresh_token = 1202
number oauth2_refresh_token_reuse = 1203
number oauth2_redirect_uri_mismatch = 1204
number signature_invalid = 1300
number signature_timestamp_invalid = 1301
number bad_request = 1400
number missing_parameter = 1401
number internal_error = 1500

pub record AuthException : Type 0 where
  pub code : AuthErrorCode
  pub status : ℕ

pub data Outcome (A : Type 0) : Type 0 where
  ok : A → Outcome A
  throw : AuthException → Outcome A

abbrev pub fail : {A : Type 0} → AuthErrorCode → ℕ → Outcome A
fail code status = throw (record { code = code; status = status })

abbrev pub M : Type 0 → Type 0 → Type 0
M W A = W → W × Outcome A

abbrev pub proceed : {W A B : Type 0} → W × Outcome A → (A → M W B) → W × Outcome B
proceed (w, ok a) f = f a w
proceed (w, throw e) f = (w, throw e)

infixl 5 ◌>>=◌ ◌>>◌
abbrev pub ◌>>=◌ : {W A B : Type 0} → M W A → (A → M W B) → M W B
◌>>=◌ m f w = proceed (m w) f

abbrev pub ◌>>◌ : {W B : Type 0} → M W (Unit {0}) → M W B → M W B
m >> k = m >>= λ _. k

abbrev pub return : {W A : Type 0} → A → M W A
return a w = (w, ok a)

abbrev pub raise : {W A : Type 0} → AuthErrorCode → ℕ → M W A
raise code status w = (w, fail code status)

-- `finally`: the last step runs whatever the outcome, and its own result is dropped.
abbrev pub after : {W A : Type 0} → W × Outcome A → (W → W) → W × Outcome A
after (w, o) f = (f w, o)
